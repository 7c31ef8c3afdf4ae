-- ===== src/Waits/Resume.antt =====
-- How a suspended workflow goes on: what `WaitForEvent` and `SleepUntil` return when it is executed
-- again.
use flicker.Prelude.{
  ℕ, ◌+◌, ◌<◌, ◌≡◌, refl, ap, ◌∙◌, true, [], none, some, arith, Text, codes, text_eq, find?,
  if◌then◌else◌,
}
use flicker.Time.{Time, before}
use flicker.Time.Order.{IsFourDigit}
use flicker.Time.RoundTrip.{parse_time-format_time}
use flicker.Errors.{suspend, is_suspend, event_timeout, is_event_timeout, ok, err}
use flicker.Records.{is_suspended}
use flicker.World.{WorkflowRow, SubscriptionRow, World, now}
use flicker.Sqlite.Steps.{has_key}
use flicker.Sqlite.Events.{step_error_timeout, has_correlation_key, resume_subscription, event_row}
use flicker.Sqlite.Occ.{workflow_of}
use flicker.Sqlite.Delivery.{resume_subscription_delivers}
use flicker.Context.{WorkflowContext, resolve_step_name}
use flicker.Steps.{Json, cached_step_error, run}
use flicker.Steps.Durable.{Holds}
use flicker.Steps.Replay.{IsReady, after_replay, run_resolved_of_Holds, run_resolved_of_error}
use flicker.Waits.{wait_for_event, sleep_until, numbered}

module _ {T : Type 0} (json : Json T) (wc : WorkflowContext) (name key : Text) where
  abbrev resolved : Text
  resolved = resolve_step_name wc name

  -- An event that `ResumeSubscription` delivered is what `WaitForEvent` returns when the workflow is
  -- executed again over those step results: the payload, as encoding/json reads it. The conditions: the
  -- subscription was that of this step, the workflow was suspended, the time of the delivery lies
  -- within years 1 to 9999, and the workflow may execute the step in the sense of `IsReady`.
  pub wait_for_event_delivered :
      (payload : Text) (a : T) (timeout : ℕ) (w v u : World) (s : SubscriptionRow) (r : WorkflowRow)
      → find? (has_correlation_key key) w.tables.subscriptions ≡ some s
      → s.type ≡ wc.type
      → s.version ≡ wc.version
      → s.workflow_id ≡ wc.id
      → s.step_name ≡ resolve_step_name wc name
      → workflow_of s.workflow_id w ≡ some r
      → is_suspended r.status ≡ true
      → 0 < w.clock w.readings
      → IsFourDigit (w.clock w.readings)
      → json.unmarshal payload ≡ some a
      → resume_subscription key payload w ≡ (ok tt, v)
      → u.tables.step_results ≡ v.tables.step_results
      → IsReady wc (resolve_step_name wc name) u
      → wait_for_event json wc name key timeout u
        ≡ (ok a, after_replay wc (resolve_step_name wc name) u)
  unfolding wait_for_event run
  wait_for_event_delivered payload a timeout w v u s r found st sv si sn present waits pos year
        reads sent same ready =
      let delivered = resume_subscription_delivers key payload w v s r found present waits sent in
      let same_key : has_key wc.type wc.version wc.id (resolve_step_name wc name)
          ≡ has_key s.type s.version s.workflow_id s.step_name =
        rw (st, sv, si, sn) in
      let held : Holds json wc (resolve_step_name wc name) a u = record {
        row = event_row s (some payload) [] (w.clock w.readings);
        found = ap (λ k. find? k u.tables.step_results) same_key ∙ ap (find? _) same ∙ delivered.0;
        no_error = refl;
        decodes = reads;
        time = w.clock w.readings;
        stamped = parse_time-format_time (w.clock w.readings) pos year;
      } in
      rw (run_resolved_of_Holds json wc (resolve_step_name wc name) _ u a held ready)

  -- An event that timed out is an `ErrEventTimeout` when the workflow is executed again over a table
  -- that holds the marker under the step's key, with a time within years 1 to 9999, and the workflow may
  -- execute the step in the sense of `IsReady`.
  wait_for_event_timed_out :
      (timeout : ℕ) (s : SubscriptionRow) (t : Time) (u : World)
      → find? (has_key wc.type wc.version wc.id (resolve_step_name wc name)) u.tables.step_results
        ≡ some (event_row s none step_error_timeout t)
      → 0 < t
      → IsFourDigit t
      → IsReady wc (resolve_step_name wc name) u
      → wait_for_event json wc name key timeout u
        ≡ (err event_timeout, after_replay wc (resolve_step_name wc name) u)
  unfolding wait_for_event run
  wait_for_event_timed_out timeout s t u found pos year ready =
      rw
        (run_resolved_of_error json wc (resolve_step_name wc name) _ u
          (event_row s none step_error_timeout t) t found refl (parse_time-format_time t pos year)
          ready)
        (unfold text_eq cached_step_error is_suspend is_event_timeout in refl)

module _ (TimeJson : Json Time) (wc : WorkflowContext) where
  abbrev pub sleep_name : Text
  sleep_name = resolve_step_name wc (numbered (codes "_sleep.until") (wc.sleep_counter + 1))

  -- A sleep whose resume time was stored goes by that time, and not by the one it is called with: it
  -- suspends again until then while the clock is before it, and returns from then on. The workflow must
  -- be able to execute the step in the sense of `IsReady`.
  pub sleep_until_resumes :
      (resume_at stored : Time) (u : World)
      → Holds TimeJson wc sleep_name stored u
      → IsReady wc sleep_name u
      → ((sleep_until TimeJson wc resume_at).1 u).0
        ≡ (if before (u.clock u.readings) stored then err (suspend stored) else ok tt)
  unfolding sleep_until run now
  sleep_until_resumes resume_at stored u held ready =
      rw (run_resolved_of_Holds TimeJson wc sleep_name _ u stored held ready) (ground arith)
