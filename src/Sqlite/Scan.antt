-- ===== src/Sqlite/Scan.antt =====
-- `scanWorkflow`, `scanStepResult` and `checkRowsAffected` of sqlite/sqlite.go. A statement of the
-- driver is one `call`; a query that is read to its end is one `call` too.
use flicker.Prelude.{
  ℕ, List, [], ◌∷◌, ◌++◌, Option, none, some, Text, codes, is_empty, ◌==◌, if◌then◌else◌,
}
use flicker.Time.{Time}
use flicker.Time.Parse.{parse_time}
use flicker.Errors.{plain, wrapped, quote, occ_conflict, Result, ok, err}
use flicker.Records.{WorkflowRecord, StepResult}
use flicker.World.{WorkflowRow, StepRow, Exec, pure, raise, wrapping, call, ◌>>=◌, ◌>>◌}

abbrev pub bind {ℓ κ} : {A : Type ℓ} {B : Type κ} → Result A → (A → Result B) → Result B
bind (ok a) f = f a
bind (err e) f = err e

-- The text that `time.Parse` reports is left out of the message.
abbrev parsed : Text → Text → Option Time → Result Time
parsed what raw none =
    err (
      wrapped (codes "parse " ++ (what ++ (codes " " ++ quote raw))) (plain (codes "parsing time")))
parsed what raw (some t) = ok t

-- A column that may be empty: the field stays the zero time.
unfoldable pub time_or_zero : Text → Text → Result Time
unfolding parse_time
time_or_zero what raw =
    if is_empty raw then ok 0 else parsed (codes "workflow " ++ what) raw (parse_time raw)

unfoldable pub scan_workflow : WorkflowRow → Result WorkflowRecord
unfolding time_or_zero
scan_workflow r = bind (time_or_zero (codes "retry_after") r.retry_after) λ retry_after.
    bind (time_or_zero (codes "created_at") r.created_at) λ created_at.
      bind (time_or_zero (codes "updated_at") r.updated_at) λ updated_at. ok (record {
        id = r.id;
        type = r.type;
        version = r.version;
        status = r.status;
        signal = r.signal;
        payload = r.payload;
        result = r.result;
        error = r.error;
        retry_after = retry_after;
        attempts = r.attempts;
        occ_version = r.occ_version;
        created_at = created_at;
        updated_at = updated_at;
      })

unfoldable pub scan_step_result : StepRow → Result StepResult
unfolding parse_time
scan_step_result r =
    bind (parsed (codes "step result created_at") r.created_at (parse_time r.created_at))
      λ created_at. ok (record {
        type = r.type;
        version = r.version;
        workflow_id = r.workflow_id;
        step_name = r.step_name;
        result = r.result;
        error = r.error;
        created_at = created_at;
      })

-- The loop over `rows.Next()`: the first row that fails to scan ends it.
unfoldable pub scan_all {ℓ} : {A B : Type ℓ} → (A → Result B) → List A → Result (List B)
scan_all scan [] = ok []
scan_all scan (r ∷ rs) =
    let rest = scan_all scan rs in bind (scan r) λ a. bind rest λ as'. ok (a ∷ as')

abbrev pub rows_affected : ℕ → Exec ℕ
rows_affected n = do wrapping (codes "rows affected") call; pure n

unfoldable pub check_rows_affected : ℕ → Exec (Unit {0})
unfolding call
check_rows_affected n = do
  affected ← rows_affected n
  if affected == 0 then raise occ_conflict else pure tt
