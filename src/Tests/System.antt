-- ===== src/Tests/System.antt =====
-- A workflow that two runners execute and what happens to it afterwards, and an event that comes too
-- early.
use flicker.Prelude.{◌+◌, ◌*◌, ◌≡◌, refl, [], ◌∷◌, some, none, codes, text_eq, find?}
use flicker.Time.{Time, second, format_time}
use flicker.Time.Calendar.{date_of, days_in, days_of, days_before_year, days_before_month}
use flicker.Errors.{plain, occ_conflict, ok, err}
use flicker.Records.{default_retry_policy, completed, pending, suspended}
use flicker.World.{WorkflowRow, World}
use flicker.Sqlite.Workflows.{
  create, insert_workflow, list_schedulable, update_status, update_versioned, versioned,
  promote_suspended, suspend,
}
use flicker.Sqlite.Steps.{has_key}
use flicker.Sqlite.Events.{
  has_correlation_key, event_row, deliver, in_transaction, resume_subscription,
}
use flicker.Sqlite.Occ.{workflow_of}
use flicker.Runner.{resolve_outcome}
use flicker.System.{System, submits, polls, resolves, promotes, Reach, here, next, starts}
use flicker.System.Advance.{SameOutcome}
use flicker.System.Once.{outcome_once}
use flicker.System.Final.{final_stays}
use flicker.System.Wakeup.{wakeup_lost}
use flicker.Tests.Data.{noon, order_id, order_row, other_row, order_record, subscription, world_of}

abbrev at_start : System
at_start = record {
  world = world_of (record { workflows = []; step_results = []; subscriptions = [] });
  handed = [];
}

abbrev submitted : System
submitted = record at_start { world = (create (order_record 0) at_start.world).1 }

-- Two polls give the workflow to two runners.
abbrev polled : System
polled = record { world = (list_schedulable 10 submitted.world).1; handed = order_record 0 ∷ [] }

abbrev polled_twice : System
polled_twice = record {
  world = (list_schedulable 10 polled.world).1;
  handed = order_record 0 ∷ order_record 0 ∷ [];
}

-- One runner completes it, the other wants it retried.
abbrev ended : System
ended = record polled_twice {
  world =
      (resolve_outcome (order_record 0) default_retry_policy (ok (codes "{}"))
        polled_twice.world).1;
}

abbrev ended_twice : System
ended_twice = record ended {
  world =
      (resolve_outcome (order_record 0) default_retry_policy (err (plain (codes "late")))
        ended.world).1;
}

until_polled_twice : Reach at_start polled_twice
unfolding create insert_workflow list_schedulable format_time date_of days_in days_of
    days_before_year days_before_month
until_polled_twice =
    next polled polled_twice
      (next submitted polled (next at_start submitted here (submits at_start (order_record 0)))
        (polls submitted 10 (order_record 0 ∷ []) polled.world refl))
      (polls polled 10 (order_record 0 ∷ []) polled_twice.world refl)

until_ended : Reach at_start ended
until_ended = next polled_twice ended until_polled_twice (
    resolves polled_twice [] (order_record 0 ∷ []) (order_record 0) default_retry_policy
      (ok (codes "{}")) refl)

abbrev completed_row : WorkflowRow
completed_row = record (order_row completed []) {
  result = some (codes "{}");
  occ_version = 2;
  created_at = format_time noon;
  updated_at = format_time noon;
}

final_stays_example :
    (q : WorkflowRow) × (workflow_of order_id ended_twice.world ≡ some q)
    × SameOutcome completed_row q
unfolding create insert_workflow list_schedulable resolve_outcome update_status update_versioned
    find? text_eq format_time date_of days_in days_of days_before_year days_before_month
final_stays_example =
    final_stays at_start ended ended_twice order_id completed_row (starts at_start refl refl)
      until_ended
      (next ended ended_twice here (
        resolves ended [] (order_record 0 ∷ []) (order_record 0) default_retry_policy
          (err (plain (codes "late"))) refl))
      refl refl

-- A promotion comes between the two outcomes.
abbrev promoted_between : System
promoted_between = record ended { world = (promote_suspended noon ended.world).1 }

outcome_once_example :
    ((resolve_outcome
        (order_record 0)
        default_retry_policy
        (err (plain (codes "late")))
        promoted_between.world).0
      ≡ err occ_conflict)
    × ((resolve_outcome
          (order_record 0)
          default_retry_policy
          (err (plain (codes "late")))
          promoted_between.world).1.tables
        ≡ promoted_between.world.tables)
unfolding create insert_workflow list_schedulable resolve_outcome update_status update_versioned
    promote_suspended find? text_eq format_time date_of days_in days_of days_before_year
    days_before_month
outcome_once_example =
    outcome_once at_start polled_twice promoted_between [] (order_record 0 ∷ []) (order_record 0)
      (order_record 0) default_retry_policy default_retry_policy (ok (codes "{}"))
      (err (plain (codes "late"))) (starts at_start refl refl) until_polled_twice refl refl
      (next ended promoted_between here (promotes ended noon)) refl refl refl refl

-- The workflow has saved its subscription and is still in execution.
abbrev in_execution : World
in_execution = world_of (record {
  workflows = order_row pending [] ∷ other_row ∷ [];
  step_results = [];
  subscriptions = subscription ∷ [];
})

abbrev delivered : World
delivered = (resume_subscription (codes "pay") (codes "paid") in_execution).1

abbrev deadline : Time
deadline = noon + 86400 * second

wakeup_lost_example :
    let (result, x) = suspend order_id deadline 1 delivered in
    (result ≡ ok tt)
    × (find?
          (has_key
            (order_row pending []).type
            (order_row pending []).version
            order_id
            (codes "paid"))
          x.tables.step_results
        ≡ some (event_row subscription (some (codes "paid")) [] noon))
    × (find? (has_correlation_key (codes "pay")) x.tables.subscriptions ≡ none)
    × (workflow_of order_id x
        ≡ some (
            versioned noon
              (λ q. record q { status = suspended; retry_after = format_time deadline })
              (order_row pending [])))
unfolding find? text_eq resume_subscription in_transaction deliver
wakeup_lost_example =
    wakeup_lost (codes "pay") (codes "paid") in_execution delivered delivered subscription
      (order_row pending []) deadline (refl, (refl, tt)) refl refl refl refl refl refl refl
