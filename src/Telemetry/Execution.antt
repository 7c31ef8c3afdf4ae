-- ===== src/Telemetry/Execution.antt =====
-- `Run` and `resolveOutcome` of runner.go, the cycles of trigger.go and promoter.go, `SendEvent` and
-- `Submit` with their emissions.
use flicker.Prelude.{
  ℕ, ◌+◌, ltb, leb, Bool, true, false, List, [], ◌∷◌, ◌++◌, Option, none, some, Text, codes, find?,
  text_eq, if◌then◌else◌,
}
use flicker.Errors.{
  Error, wrapped, cancelled, definition_not_found, is_suspend, is_cancelled, as_permanent, Result,
  ok, err,
}
use flicker.Records.{
  WorkflowRecord, RetryPolicy, Signal, Status, completed, failed, StepResult, is_cancel_requested,
}
use flicker.World.{World}
use flicker.Semconv.{Conventions}
use flicker.Sqlite.Workflows.{get_signal}
use flicker.Sqlite.Steps.{list_step_results}
use flicker.Leases.{acquire, release}
use flicker.Context.{WorkflowContext}
use flicker.Steps.{Outcome, recovered}
use flicker.Runner.{RegistryEntry, context_of, fresh_steps, resolve_outcome}
use flicker.Engine.{promote, time_out_subscriptions, send_event}
use flicker.Telemetry.{
  Emission, up, down, Traced, emit_before, start_workflow_span, record_completed, record_duration,
  adjust_active, adjust_suspended, end_span_with_error,
}
use flicker.Telemetry.Run.{end_span}

-- A registered definition whose code emits.
pub record TracedEntry : Type 0 where
  pub name : Text
  pub execute_workflow : WorkflowContext → Text → Traced (Outcome Text)
  pub retry_policy : RetryPolicy

abbrev pub plain_entry : TracedEntry → RegistryEntry
plain_entry e = record {
  name = e.name;
  execute_workflow = λ wc payload w. (e.execute_workflow wc payload w).0;
  retry_policy = e.retry_policy;
}

abbrev pub traced_panic_to_error :
    {A : Type 0} → (Outcome A × World) × List Emission → (Result A × World) × List Emission
traced_panic_to_error ((o, w), es) = ((recovered o, w), es)

module _ (conv : Conventions) where
  -- `resolveOutcome` emits before it writes.
  unfoldable pub outcome_emissions : WorkflowRecord → RetryPolicy → Result Text → List Emission
  unfolding is_cancelled as_permanent is_suspend
  outcome_emissions r p (ok json) = record_completed conv r.type r.version completed ∷ []
  outcome_emissions r p (err e) =
      if is_cancelled e
      then record_completed conv r.type r.version Status.cancelled ∷ []
      else elim (as_permanent e) [
        | some cause ↦ record_completed conv r.type r.version failed ∷ []
        | none ↦ elim (is_suspend e) [
          | some t ↦ adjust_suspended (up 1) ∷ []
          | none ↦
              if leb p.max_attempts (r.attempts + 1)
              then record_completed conv r.type r.version failed ∷ []
              else []
        ]
      ]

  abbrev pub give_up : WorkflowRecord → Error → List Emission
  give_up r e = adjust_active conv (down 1) r.type r.version ∷ end_span_with_error (some e)

  unfoldable pub ended :
      RetryPolicy
      → WorkflowRecord
      → (Result Text × World) × List Emission
      → (Result (Unit {0}) × World) × List Emission
  unfolding end_span resolve_outcome outcome_emissions
  ended p r ((result, w), es) = (
    resolve_outcome r p result w,
    es
        ++ (adjust_active conv (down 1) r.type r.version
            ∷ record_duration conv r.type r.version
            ∷ (end_span result ++ outcome_emissions r p result)),
  )

  -- Behind the read of the signal.
  unfoldable pub signalled :
      TracedEntry
      → WorkflowRecord
      → List StepResult
      → Result Signal × World
      → (Result (Unit {0}) × World) × List Emission
  unfolding ended
  signalled entry r steps (err e, w) = ((err (wrapped (codes "get signal") e), w), give_up r e)
  signalled entry r steps (ok signal, w) = ended entry.retry_policy r (
      if is_cancel_requested signal
      then ((err cancelled, w), [])
      else traced_panic_to_error
          (entry.execute_workflow (context_of r steps) r.payload (fresh_steps w)))

  -- Behind the prefetch.
  unfoldable pub prefetched :
      TracedEntry
      → WorkflowRecord
      → Result (List StepResult) × World
      → (Result (Unit {0}) × World) × List Emission
  unfolding signalled get_signal
  prefetched entry r (err e, w) =
      ((err (wrapped (codes "prefetch step results") e), w), give_up r e)
  prefetched entry r (ok steps, w) = signalled entry r steps (get_signal r.id w)

  unfoldable pub traced_record : TracedEntry → WorkflowRecord → Traced (Result (Unit {0}))
  unfolding prefetched list_step_results
  traced_record entry r w =
      emit_before (start_workflow_span conv r ∷ adjust_active conv (up 1) r.type r.version ∷ [])
        (prefetched entry r (list_step_results r.type r.version r.id w))

  abbrev pub released :
      Text
      → (Result (Unit {0}) × World) × List Emission
      → (Result (Unit {0}) × World) × List Emission
  released id ((r, w), es) = ((r, (release id w).1), es)

  abbrev pub acquired_by :
      TracedEntry
      → WorkflowRecord
      → Result Bool × World
      → (Result (Unit {0}) × World) × List Emission
  acquired_by entry r (err e, w) = ((err e, w), [])
  acquired_by entry r (ok false, w) = ((ok tt, w), [])
  acquired_by entry r (ok true, w) = released r.id (traced_record entry r w)

  unfoldable pub traced_entry : TracedEntry → WorkflowRecord → Traced (Result (Unit {0}))
  unfolding acquire release traced_record
  traced_entry entry r w = acquired_by entry r (acquire r.id w)

  abbrev pub traced_chosen : WorkflowRecord → Option TracedEntry → Traced (Result (Unit {0}))
  traced_chosen r none w = ((err (definition_not_found r.type), w), [])
  traced_chosen r (some entry) w = traced_entry entry r w

  -- `LocalRunner.Run`.
  unfoldable pub traced_runner : List TracedEntry → WorkflowRecord → Traced (Result (Unit {0}))
  unfolding find? traced_entry
  traced_runner registry r = traced_chosen r (find? (λ e. text_eq e.name r.type) registry)

-- `adjustSuspended(-n)` behind a cycle that moved `n` workflows.
abbrev pub moved : Result ℕ → List Emission
moved (err e) = []
moved (ok n) = if ltb 0 n then adjust_suspended (down n) ∷ [] else []

-- `Engine.Promote`, `Engine.TimeOutSubscriptions` and `SendEvent`.
unfoldable pub traced_promote : Traced (Result ℕ)
unfolding promote
traced_promote w = (promote w, moved (promote w).0)

unfoldable pub traced_time_out_subscriptions : Traced (Result ℕ)
unfolding time_out_subscriptions
traced_time_out_subscriptions w = (time_out_subscriptions w, moved (time_out_subscriptions w).0)

unfoldable pub traced_send_event : Text → Option Text → Traced (Result (Unit {0}))
unfolding send_event
traced_send_event key raw w = (send_event key raw w, [])
