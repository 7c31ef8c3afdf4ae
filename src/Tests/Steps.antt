-- ===== src/Tests/Steps.antt =====
-- Steps, waits and names at concrete inputs.
use flicker.Prelude.{
  ◌+◌, ◌≡◌, ◌∙◌, ap, ◌≢◌, refl, sym, if◌then◌else◌, [], ◌∷◌, none, some, arith, Text, codes,
  text_eq, find?, filter,
}
use flicker.Time.{before, decimal, format_time}
use flicker.Time.RoundTrip.{parse_time-format_time}
use flicker.Time.Parse.{parse_time}
use flicker.Time.Calendar.{days_in, days_of, days_before_year, days_before_month}
use flicker.Errors.{is_step_not_found, suspend, ok, err}
use flicker.Records.{StepResult, pending, suspended}
use flicker.World.{StepRow, World}
use flicker.Sqlite.Scan.{scan_step_result}
use flicker.Sqlite.Workflows.{promoted}
use flicker.Sqlite.Steps.{get_step_result}
use flicker.Sqlite.Events.{
  in_transaction, deliver, resume_subscription, event_row, step_error_timeout,
}
use flicker.Leases.{contains}
use flicker.Context.{WorkflowContext, under, scope, resolve_step_name, track_step}
use flicker.Context.Names.{scope_disjoint}
use flicker.Steps.{
  Outcome, returned, panicked, check_signal, read_through, execute_step, unless_cancelled,
  run_resolved, run,
}
use flicker.Waits.{wait_for_event, sleep_until, numbered}
use flicker.Steps.Replay.{IsReady, after_replay, run_executes_once}
use flicker.Waits.Resume.{wait_for_event_delivered, sleep_until_resumes}
use flicker.Tests.Data.{
  noon, noon-IsFourDigit, order_id, order_row, start, order_context, raw_json, time_json,
  subscription, waiting, v1, order_type,
}

some_injective {ℓ} : {A : Type ℓ} (a b : A) → some a ≡ some b → a ≡ b
some_injective a b h = ground arith

-- Nothing was prefetched.
nothing_prefetched : (s : StepResult) → none ≡ some s → ⊥
nothing_prefetched s h = absurd (ground (arith, h))

abbrev fetch : World → Outcome Text × World
fetch w = (returned (ok (codes "alice")), w)

abbrev explode : World → Outcome Text × World
explode w = (panicked (codes "nil map") [], w)

-- After the first execution, and at the start of the next one.
abbrev fetched : World
fetched = (run raw_json order_context (codes "fetch") fetch start).1

abbrev replaying : World
replaying = record fetched { seen_steps = [] }

-- What the runner prefetches for the next execution.
abbrev fetched_result : StepResult
fetched_result = record {
  type = order_type;
  version = v1;
  workflow_id = order_id;
  step_name = codes "fetch";
  result = some (codes "alice");
  error = [];
  created_at = noon;
}

abbrev fetched_row : StepRow
fetched_row = record {
  type = order_type;
  version = v1;
  workflow_id = order_id;
  step_name = codes "fetch";
  result = some (codes "alice");
  error = [];
  created_at = format_time noon;
}

abbrev next_context : WorkflowContext
next_context = record order_context { step_cache = fetched_result ∷ [] }

scan_step_result-fetched_row : scan_step_result fetched_row ≡ ok fetched_result
unfolding scan_step_result
scan_step_result-fetched_row = rw (parse_time-format_time noon (omega arith) noon-IsFourDigit) refl

replaying-IsReady : IsReady next_context (codes "fetch") replaying
unfolding run run_resolved track_step check_signal unless_cancelled read_through execute_step
    get_step_result text_eq is_step_not_found under find? filter contains
replaying-IsReady = record {
  same_result = λ s hit. (
    fetched_row,
    refl,
    scan_step_result-fetched_row ∙ ap ok (some_injective fetched_result s hit),
  );
  unseen = refl;
  row = order_row pending [];
  present = refl;
  calm = refl;
  first = refl;
  second = refl;
}

run_executes_once_example :
    run raw_json next_context (codes "fetch") explode replaying
    ≡ (ok (codes "alice"), after_replay next_context (codes "fetch") replaying)
unfolding run run_resolved track_step check_signal unless_cancelled read_through execute_step
    get_step_result contains find? filter under text_eq is_step_not_found
run_executes_once_example =
    run_executes_once raw_json order_context (codes "fetch") fetch explode (fetched_result ∷ [])
      start fetched replaying (codes "alice") refl (λ raw e. sym e)
      (λ n. (omega arith, noon-IsFourDigit)) refl refl replaying-IsReady

-- The event has come, and the workflow is executed again.
abbrev paid : World
paid = (resume_subscription (codes "pay") (codes "42") waiting).1

paid-IsReady : IsReady order_context (codes "paid") paid
unfolding resume_subscription in_transaction deliver contains find? filter text_eq
paid-IsReady = record {
  same_result = λ s hit. absurd (nothing_prefetched s hit);
  unseen = refl;
  row = promoted noon (order_row suspended (codes "0001-01-02T12:00:00Z"));
  present = refl;
  calm = refl;
  first = refl;
  second = refl;
}

wait_for_event_delivered_example :
    wait_for_event raw_json order_context (codes "paid") (codes "pay") 10 paid
    ≡ (ok (codes "42"), after_replay order_context (codes "paid") paid)
unfolding resume_subscription in_transaction deliver contains find? filter under text_eq
wait_for_event_delivered_example =
    wait_for_event_delivered raw_json order_context (codes "paid") (codes "pay") (codes "42")
      (codes "42") 10 waiting paid paid subscription
      (order_row suspended (codes "0001-01-02T12:00:00Z")) refl refl refl refl refl refl refl
      (omega arith) noon-IsFourDigit refl refl refl paid-IsReady

-- The marker of a timed out event.
abbrev timed_out : World
timed_out = record start {
  tables = record start.tables {
    step_results = event_row subscription none step_error_timeout noon ∷ [];
  };
}

-- A sleep whose resume time, a second after noon, was stored in an earlier execution.
abbrev sleeping : World
sleeping = record start {
  tables = record start.tables {
    step_results =
        record {
          type = order_type;
          version = v1;
          workflow_id = order_id;
          step_name = codes "_sleep.until:1";
          result = some ((noon + 1000000000) ∷ []);
          error = [];
          created_at = codes "0001-01-01T12:00:00Z";
        }
        ∷ [];
  };
}

sleep_until_resumes_example :
    ((sleep_until time_json order_context 7).1 sleeping).0
    ≡ (if before noon (noon + 1000000000) then err (suspend (noon + 1000000000)) else ok tt)
unfolding contains find? under text_eq numbered parse_time days_of days_before_year
    days_before_month days_in decimal
sleep_until_resumes_example =
    sleep_until_resumes time_json order_context 7 (noon + 1000000000) sleeping
      (record {
        row = record {
          type = order_type;
          version = v1;
          workflow_id = order_id;
          step_name = codes "_sleep.until:1";
          result = some ((noon + 1000000000) ∷ []);
          error = [];
          created_at = codes "0001-01-01T12:00:00Z";
        };
        found = refl;
        no_error = refl;
        decodes = refl;
        time = noon;
        stamped = refl;
      })
      (record {
        same_result = λ s hit. absurd (nothing_prefetched s hit);
        unseen = refl;
        row = order_row pending [];
        present = refl;
        calm = refl;
        first = refl;
        second = refl;
      })

scope_disjoint_example :
    resolve_step_name (scope order_context (codes "a")) (codes "x")
    ≢ resolve_step_name (scope order_context (codes "b")) (codes "x")
scope_disjoint_example =
    scope_disjoint order_context (codes "a") (codes "b") (codes "x") (codes "x") (ground arith)
      (ground arith) (ground arith) (omega arith) (omega arith)
