-- ===== src/Tests/Store.antt =====
-- The sqlite store and its times at concrete inputs.
use Prim.Native.Nat.{min}
use flicker.Prelude.{
  filter, ap, List, ◌++◌, text_le, length, suc, ◌+◌, ◌≡◌, ◌≢◌, refl, [], ◌∷◌, none, some, arith,
  Text, codes, text_eq, find?, All, ltb,
}
use flicker.Time.{Time, format_time}
use flicker.Time.Parse.{parse_time}
use flicker.Time.Order.{IsFourDigit, text_le-format_time}
use flicker.Time.RoundTrip.{parse_time-format_time}
use flicker.Time.Calendar.{date_of}
use flicker.Errors.{ok}
use flicker.Records.{completed, running, suspended, pending}
use flicker.World.{WorkflowRow, World}
use flicker.Sqlite.Workflows.{
  promote_suspended, update_status, update_versioned, select_schedulable, list_schedulable,
}
use flicker.Sqlite.Steps.{has_key}
use flicker.Sqlite.Events.{has_correlation_key, resume_subscription, in_transaction, deliver}
use flicker.Sqlite.Occ.{to_status, write, columns, workflow_of, write-eq-ok}
use flicker.Sqlite.Steps.{list_step_results}
use flicker.Sqlite.Scan.{scan_workflow, scan_step_result, scan_all}
use flicker.Sqlite.Workflows.{order_by}
use flicker.Records.{StepResult}
use flicker.World.{StepRow}
use flicker.Steps.Durable.{row_of}
use flicker.Runner.{context_of}
use flicker.Runner.Prefetch.{prefetched-row_of}
use flicker.Sqlite.RoundTrip.{created, get-create}
use flicker.Sqlite.Workflows.{create, get, insert_workflow}
use flicker.Records.{unset, WorkflowRecord}
use flicker.Sqlite.Delivery.{resume_subscription_delivers}
use flicker.Sqlite.Promotion.{promote_suspended_late}
use flicker.Sqlite.Schedulable.{IsSchedulable, IsByAge, list_schedulable_lem}
use mathlib.Core.List.{Perm}
use flicker.Tests.Data.{
  order_record, noon, order_id, order_row, start, subscription, waiting, order_type, v1,
}

abbrev o2 : Text
o2 = codes "o2"

o2_differs : o2 ≢ order_id
unfolding text_eq
o2_differs e = absurd (cc (ap (text_eq order_id) e))

abbrev completing : World
completing = (write (to_status completed (some (codes "42"))) order_id 1 start).1

write-eq-ok_example :
    (r : WorkflowRow) × (workflow_of order_id start ≡ some r)
    × (r.occ_version ≡ 1)
    × (workflow_of order_id completing
        ≡ some (record (columns (to_status completed (some (codes "42"))) r) {
          occ_version = 2;
          updated_at = format_time noon;
        }))
    × (workflow_of o2 completing ≡ workflow_of o2 start)
    × (completing.tables.step_results ≡ start.tables.step_results)
    × (completing.tables.subscriptions ≡ start.tables.subscriptions)
unfolding update_status update_versioned find? text_eq
write-eq-ok_example =
    write-eq-ok (to_status completed (some (codes "42"))) order_id o2 1 start completing
      (refl, (refl, tt)) o2_differs refl

abbrev paid : World
paid = (resume_subscription (codes "pay") (codes "42") waiting).1

resume_subscription_delivers_example :
    (find? (has_key order_type v1 order_id (codes "paid")) paid.tables.step_results
      ≡ some (record {
        type = order_type;
        version = v1;
        workflow_id = order_id;
        step_name = codes "paid";
        result = some (codes "42");
        error = [];
        created_at = format_time noon;
      }))
    × (find? (has_correlation_key (codes "pay")) paid.tables.subscriptions ≡ none)
    × (workflow_of order_id paid
        ≡ some (record (order_row pending []) { occ_version = 2; updated_at = format_time noon }))
unfolding resume_subscription in_transaction deliver find? text_eq
resume_subscription_delivers_example =
    resume_subscription_delivers (codes "pay") (codes "42") waiting paid subscription
      (order_row suspended (codes "0001-01-02T12:00:00Z")) refl refl refl refl

abbrev later : Time
later = noon + 1500000000

noon-IsFourDigit : IsFourDigit noon
unfolding date_of
noon-IsFourDigit = omega arith

later-IsFourDigit : IsFourDigit later
unfolding date_of
later-IsFourDigit = omega arith

parse_time-format_time_example : parse_time (format_time later) ≡ some later
parse_time-format_time_example = parse_time-format_time later (omega arith) later-IsFourDigit

text_le-format_time_example : text_le (format_time noon) (format_time later) ≡ ltb noon later
text_le-format_time_example =
    text_le-format_time noon later (omega arith) (omega arith) noon-IsFourDigit later-IsFourDigit
      (omega arith)

-- An order that is suspended until noon.
abbrev suspended_order : World
suspended_order = record start {
  tables = record start.tables { workflows = order_row suspended (format_time noon) ∷ [] };
}

promote_suspended_late_example :
    workflow_of order_id (promote_suspended (noon + 500000000) suspended_order).1
    ≡ some (order_row suspended (format_time noon))
unfolding promote_suspended find? text_eq format_time date_of text_le
promote_suspended_late_example =
    promote_suspended_late (noon + 500000000) noon 0 order_id suspended_order
      (promote_suspended (noon + 500000000) suspended_order).1
      (order_row suspended (format_time noon)) refl refl refl (omega arith) noon-IsFourDigit
      (omega arith) (omega arith) (omega arith) refl

abbrev readable : WorkflowRow → WorkflowRow
readable r = record r { created_at = format_time noon; updated_at = format_time noon }

-- One order that is pending, and one that is not.
abbrev busy : World
busy = record start {
  tables = record start.tables {
    workflows = readable (order_row pending []) ∷ readable (order_row running []) ∷ [];
  };
}

list_schedulable-busy : (list_schedulable 1 busy).0 ≡ ok (order_record 0 ∷ [])
unfolding list_schedulable select_schedulable filter order_by scan_all scan_workflow text_le
    format_time date_of
list_schedulable-busy = rw (parse_time-format_time noon (omega arith) noon-IsFourDigit) refl

list_schedulable_lem_example :
    (chosen : List WorkflowRow) × (later : List WorkflowRow) × (others : List WorkflowRow)
    × (scan_all scan_workflow chosen ≡ ok (order_record 0 ∷ []))
    × Perm ((chosen ++ later) ++ others) busy.tables.workflows
    × All (IsSchedulable noon) (chosen ++ later)
    × All (λ r. ¬ IsSchedulable noon r) others
    × IsByAge (chosen ++ later)
    × (length chosen ≡ min 1 (length (chosen ++ later)))
    × ((list_schedulable 1 busy).1.tables ≡ busy.tables)
list_schedulable_lem_example =
    list_schedulable_lem 1 busy (list_schedulable 1 busy).1 (order_record 0 ∷ [])
      (ap (λ r. (r, (list_schedulable 1 busy).1)) list_schedulable-busy)

abbrev saved : StepResult
saved = record {
  type = order_type;
  version = v1;
  workflow_id = order_id;
  step_name = codes "paid";
  result = some (codes "1");
  error = [];
  created_at = noon;
}

-- What the runner prefetches after the delivery.
abbrev delivered : StepResult
delivered = record saved { result = some (codes "42") }

list_step_results-paid : (list_step_results order_type v1 order_id paid).0 ≡ ok (delivered ∷ [])
unfolding list_step_results resume_subscription in_transaction deliver find? text_eq filter order_by
    scan_all scan_step_result
list_step_results-paid = rw (parse_time-format_time noon (omega arith) noon-IsFourDigit) refl

prefetched-row_of_example :
    (row : StepRow) × (row_of (context_of (order_record 0) (delivered ∷ [])) (codes "paid") paid
      ≡ some row)
    × (scan_step_result row ≡ ok delivered)
unfolding list_step_results resume_subscription in_transaction deliver find? text_eq
prefetched-row_of_example =
    prefetched-row_of (order_record 0) (codes "paid") (delivered ∷ []) delivered paid
      (list_step_results order_type v1 order_id paid).1 (refl, tt)
      (ap (λ r. (r, (list_step_results order_type v1 order_id paid).1)) list_step_results-paid) refl

abbrev new_record : WorkflowRecord
new_record = record (order_record 0) { id = codes "o9"; status = unset }

zero-IsFourDigit : IsFourDigit 0
unfolding date_of
zero-IsFourDigit = omega arith

get-create_example : get (codes "o9") (create new_record start).1 ≡ (
  ok (created new_record noon),
  record (create new_record start).1 { calls = suc (create new_record start).1.calls },
)
unfolding create insert_workflow find? text_eq
get-create_example =
    get-create new_record start (create new_record start).1 (create new_record start).1
      zero-IsFourDigit noon-IsFourDigit refl refl refl
