-- ===== src/Tests/Telemetry.antt =====
-- An execution of one step with its telemetry, and a sleeping workflow that an event wakes.
use flicker.Prelude.{suc, true, ◌≡◌, refl, [], ◌∷◌, Text, codes, text_eq, find?, some}
use flicker.Errors.{ok}
use flicker.Records.{default_retry_policy, suspended}
use flicker.World.{World}
use flicker.Semconv.{default_conventions}
use flicker.Context.{WorkflowContext}
use flicker.Steps.{Outcome, returned}
use flicker.Sqlite.Events.{in_transaction, deliver}
use flicker.Engine.{send_event}
use flicker.Telemetry.{Traced}
use flicker.Telemetry.Run.{traced_run}
use flicker.Telemetry.Execution.{TracedEntry, traced_runner, traced_send_event}
use flicker.Telemetry.Balance.{IsBalanced, traced_run-IsBalanced, traced_runner-IsBalanced}
use flicker.Telemetry.Gauge.{suspended_count, send_event_uncounted}
use flicker.Tests.Data.{order_type, order_row, order_record, raw_json, start, subscription, waiting}

abbrev fetch : Traced (Outcome Text)
fetch w = ((returned (ok (codes "42")), w), [])

abbrev fetching : WorkflowContext → Text → Traced (Outcome Text)
fetching wc payload w =
    let ((r, w'), es) = traced_run default_conventions true raw_json wc (codes "fetch") fetch w in
    ((returned r, w'), es)

abbrev entry : TracedEntry
entry = record {
  name = order_type;
  execute_workflow = fetching;
  retry_policy = default_retry_policy;
}

fetching-IsBalanced :
    (wc : WorkflowContext) (payload : Text) (w : World) → IsBalanced (fetching wc payload w).1
fetching-IsBalanced wc payload w =
    traced_run-IsBalanced default_conventions true raw_json wc fetch (λ v n a. refl) (codes "fetch")
      w

traced_runner-IsBalanced_example :
    IsBalanced (traced_runner default_conventions (entry ∷ []) (order_record 0) start).1
traced_runner-IsBalanced_example =
    traced_runner-IsBalanced default_conventions (entry ∷ []) (order_record 0) start
      (fetching-IsBalanced, tt)

send_event_uncounted_example :
    ((traced_send_event (codes "pay") (some (codes "paid")) waiting).1 ≡ [])
    × (suspended_count waiting
        ≡ suc (suspended_count (send_event (codes "pay") (some (codes "paid")) waiting).1))
unfolding find? text_eq traced_send_event in_transaction deliver
send_event_uncounted_example =
    send_event_uncounted (codes "pay") (codes "paid") waiting
      (send_event (codes "pay") (some (codes "paid")) waiting).1 subscription
      (order_row suspended (codes "0001-01-02T12:00:00Z")) (refl, (refl, tt)) refl refl refl refl
