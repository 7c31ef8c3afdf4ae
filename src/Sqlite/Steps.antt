-- ===== src/Sqlite/Steps.antt =====
-- The operations of sqlite/sqlite.go on the table `step_results`.
use flicker.Prelude.{
  Bool, not, ◌&&◌, List, [], ◌∷◌, ◌++◌, Option, none, some, Text, codes, text_eq, filter, find?,
}
use flicker.Time.{format_time}
use flicker.Errors.{step_not_found}
use flicker.Records.{StepResult}
use flicker.World.{StepRow, Exec, raise, lift, gets, wrapping, modify_tables, call, ◌>>=◌, ◌>>◌}
use flicker.Sqlite.Scan.{scan_step_result, scan_all}
use flicker.Sqlite.Workflows.{order_by}

-- The columns of a workflow that a step belongs to.
abbrev pub in_workflow : Text → Text → Text → StepRow → Bool
in_workflow type version workflow_id r =
    text_eq r.type type && text_eq r.version version && text_eq r.workflow_id workflow_id

-- The primary key.
abbrev pub has_key : Text → Text → Text → Text → StepRow → Bool
has_key type version workflow_id step_name r =
    in_workflow type version workflow_id r && text_eq r.step_name step_name

-- `INSERT OR REPLACE`: the old row of that key goes.
unfoldable pub replace_row : StepRow → List StepRow → List StepRow
unfolding filter
replace_row s rows =
    filter (λ r. not (has_key s.type s.version s.workflow_id s.step_name r)) rows ++ (s ∷ [])

unfoldable pub insert_step : StepRow → Exec (Unit {0})
unfolding replace_row
insert_step s = modify_tables (λ t. record t { step_results = replace_row s t.step_results })

unfoldable pub save_step_result : StepResult → Exec (Unit {0})
unfolding call insert_step
save_step_result r = do
  wrapping (codes "save step result") call
  insert_step (record {
    type = r.type;
    version = r.version;
    workflow_id = r.workflow_id;
    step_name = r.step_name;
    result = r.result;
    error = r.error;
    created_at = format_time r.created_at;
  })

abbrev scanned : Option StepRow → Exec StepResult
scanned none = raise step_not_found
scanned (some r) = lift (scan_step_result r)

unfoldable pub get_step_result : Text → Text → Text → Text → Exec StepResult
unfolding call find? scan_step_result
get_step_result type version workflow_id step_name = do
  wrapping (codes "scan step result") call
  row ← gets (λ w. find? (has_key type version workflow_id step_name) w.tables.step_results)
  scanned row

unfoldable pub list_step_results : Text → Text → Text → Exec (List StepResult)
unfolding call filter order_by scan_all scan_step_result
list_step_results type version workflow_id = do
  wrapping (codes "list step results") call
  rows ← gets (λ w.
      order_by (λ r. r.created_at)
        (filter (in_workflow type version workflow_id) w.tables.step_results))
  lift (scan_all scan_step_result rows)
