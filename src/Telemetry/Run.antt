-- ===== src/Telemetry/Run.antt =====
-- `Run` of run.go with its emissions. Those of the step's function stand between the start and the end
-- of the step; the result and the world are those of `Steps.run`.
use flicker.Prelude.{
  Bool, true, false, List, [], ◌∷◌, ◌++◌, Option, none, some, Text, if◌then◌else◌,
}
use flicker.Errors.{is_suspend, cancelled, Result, ok, err}
use flicker.Records.{Signal, StepResult, signal_none, cancel_requested}
use flicker.Semconv.{Conventions}
use flicker.Context.{WorkflowContext, resolve_step_name, track_step}
use flicker.Steps.{Json, Outcome, recovered, check_signal, read_through, replay, execute_step}
use flicker.Telemetry.{
  Emission, ends_span, Traced, continue_traced, start_step_span, record_step_executed,
  record_step_duration, end_span_with_error,
}

-- A suspension is no error of a span.
unfoldable pub end_span : {A : Type 0} → Result A → List Emission
unfolding is_suspend
end_span (ok a) = ends_span ∷ []
end_span (err e) = elim (is_suspend e) [
  | some t ↦ ends_span ∷ []
  | none ↦ end_span_with_error (some e)
]

module _ (conv : Conventions) (cache_hit_spans : Bool) where
  unfoldable pub cache_hit : Text → List Emission
  cache_hit name =
      record_step_executed conv name true
      ∷ (if cache_hit_spans then start_step_span conv name true ∷ ends_span ∷ [] else [])

  module _ {T : Type 0} (json : Json T) where
    -- The emissions around a function that ended as `o` and emitted `inner`.
    unfoldable pub executed : Text → Outcome T → List Emission → List Emission
    unfolding end_span
    executed name o inner =
        start_step_span conv name false
        ∷ (inner
            ++ (record_step_executed conv name false
                ∷ record_step_duration conv name
                ∷ end_span (recovered o)))

    unfoldable pub traced_execute : WorkflowContext → Text → Traced (Outcome T) → Traced (Result T)
    unfolding execute_step executed
    traced_execute wc name fn w =
        (execute_step json wc name (λ v. (fn v).0) w, executed name (fn w).0.0 (fn w).1)

    unfoldable pub traced_replay_or_execute :
        WorkflowContext → Text → Traced (Outcome T) → Option StepResult → Traced (Result T)
    unfolding replay cache_hit traced_execute
    traced_replay_or_execute wc name fn (some cached) w =
        ((replay json name cached, w), cache_hit name)
    traced_replay_or_execute wc name fn none w = traced_execute wc name fn w

    unfoldable pub traced_unless_cancelled :
        WorkflowContext → Text → Traced (Outcome T) → Signal → Traced (Result T)
    unfolding read_through traced_replay_or_execute
    traced_unless_cancelled wc name fn cancel_requested w = ((err cancelled, w), [])
    traced_unless_cancelled wc name fn signal_none w =
        continue_traced (read_through wc name w) (traced_replay_or_execute wc name fn)

    unfoldable pub traced_run : WorkflowContext → Text → Traced (Outcome T) → Traced (Result T)
    unfolding track_step check_signal traced_unless_cancelled
    traced_run wc step_name fn w =
        let name = resolve_step_name wc step_name in
        continue_traced (track_step name w) (λ _ w₁.
          continue_traced (check_signal wc name w₁)
            (λ signal w₂. traced_unless_cancelled wc name fn signal w₂))
