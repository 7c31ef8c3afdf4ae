-- ===== src/Telemetry/Balance.antt =====
-- Every span that is started is ended, and every workflow that is counted as active is counted out.
use flicker.Prelude.{
  ℕ, suc, ◌+◌, ◌-◌, leb, ◌≡◌, refl, ap, ◌∙◌, Bool, true, false, List, [], ◌∷◌, ◌++◌, Option, none,
  some, Text, find?, text_eq, Bool-cases, inl, inr, arith, if◌then◌else◌, All,
}
use flicker.Errors.{Error, Result, cancelled, ok, err}
use flicker.Records.{
  WorkflowRecord, RetryPolicy, Signal, StepResult, signal_none, cancel_requested,
  is_cancel_requested,
}
use flicker.World.{World}
use flicker.Semconv.{Conventions}
use flicker.Context.{WorkflowContext, resolve_step_name, track_step}
use flicker.Steps.{Json, Outcome, recovered, check_signal, read_through}
use flicker.Sqlite.Workflows.{get_signal}
use flicker.Sqlite.Steps.{list_step_results}
use flicker.Leases.{acquire}
use flicker.Runner.{context_of, fresh_steps}
use flicker.Telemetry.{
  adjust_active, record_duration, Instrument, Delta, up, down, Emission, starts_span, records_error,
  ends_span, adds, observes, Traced, continue_traced, workflow_active,
}
use flicker.Telemetry.Run.{
  end_span, cache_hit, executed, traced_execute, traced_replay_or_execute, traced_unless_cancelled,
  traced_run,
}
use flicker.Telemetry.Execution.{
  TracedEntry, acquired_by, give_up, traced_panic_to_error, outcome_emissions, ended, signalled,
  prefetched, traced_record, traced_entry, traced_runner,
}

-- The open spans and the value of the counter of active workflows.
abbrev adjusted : Instrument → Delta → ℕ → Option ℕ
adjusted workflow_active (up k) a = some (a + k)
adjusted workflow_active (down k) a = if leb k a then some (a - k) else none
adjusted _ delta a = some a

abbrev counted : ℕ → Option ℕ → Option (ℕ × ℕ)
counted spans none = none
counted spans (some a) = some (spans, a)

-- `none` where a span is ended or marked that is not open, or the counter goes below zero.
abbrev stepped : Emission → Option (ℕ × ℕ) → Option (ℕ × ℕ)
stepped (starts_span name attrs) (some (spans, a)) = some (suc spans, a)
stepped (records_error e) (some (suc spans, a)) = some (suc spans, a)
stepped ends_span (some (suc spans, a)) = some (spans, a)
stepped (adds i delta attrs) (some (spans, a)) = counted spans (adjusted i delta a)
stepped (observes i attrs) (some (spans, a)) = some (spans, a)
stepped _ _ = none

abbrev pub after : List Emission → Option (ℕ × ℕ) → Option (ℕ × ℕ)
after [] o = o
after (e ∷ es) o = after es (stepped e o)

-- As many spans are open and as many workflows active as before, and at no moment fewer.
abbrev pub IsBalanced : List Emission → Type 0
IsBalanced es = (spans a : ℕ) → after es (some (spans, a)) ≡ some (spans, a)

-- The end of a span, and of a span of an active workflow.
abbrev Ends : List Emission → Type 0
Ends es = (spans a : ℕ) → after es (some (suc spans, a)) ≡ some (spans, a)

abbrev Closes : List Emission → Type 0
Closes es = (spans a : ℕ) → after es (some (suc spans, a + 1)) ≡ some (spans, a)

after-append :
    (xs ys : List Emission) (o : Option (ℕ × ℕ)) → after (xs ++ ys) o ≡ after ys (after xs o)
after-append [] ys o = refl
after-append (x ∷ xs) ys o = after-append xs ys (stepped x o)

IsBalanced-append :
    (xs ys : List Emission) (s t : ℕ × ℕ)
    → IsBalanced xs
    → after ys (some s) ≡ some t
    → after (xs ++ ys) (some s) ≡ some t
IsBalanced-append xs ys (n, a) t h k = after-append xs ys (some (n, a)) ∙ ap (after ys) (h n a) ∙ k

end_span-Ends : {A : Type 0} (r : Result A) → Ends (end_span r)
unfolding end_span
end_span-Ends (ok x) n a = refl
end_span-Ends (err e) n a = ground arith

down_one : (a : ℕ) → adjusted workflow_active (down 1) (a + 1) ≡ some a
down_one a = ground arith

continue-IsBalanced :
    {A B : Type 0} (x : Result A × World) (f : A → Traced (Result B))
    → ((y : A) (w : World) → IsBalanced (f y w).1)
    → IsBalanced (continue_traced x f).1
continue-IsBalanced (ok y, w) f h = h y w
continue-IsBalanced (err e, w) f h = λ n a. refl

module _ (conv : Conventions) (hits : Bool) where
  cache_hit-IsBalanced : (b : Bool) (name : Text) → IsBalanced (cache_hit conv b name)
  unfolding cache_hit
  cache_hit-IsBalanced true name n a = refl
  cache_hit-IsBalanced false name n a = refl

  module _ {T : Type 0} (json : Json T) (wc : WorkflowContext) (fn : Traced (Outcome T))
      (calm : (w : World) → IsBalanced (fn w).1) where
    execute-IsBalanced :
        (name : Text) (w : World) → IsBalanced (traced_execute conv hits json wc name fn w).1
    unfolding traced_execute executed
    execute-IsBalanced name w n a =
        IsBalanced-append (fn w).1 _ (suc n, a) (n, a) (calm w)
          (end_span-Ends (recovered (fn w).0.0) n a)

    replay_or_execute-IsBalanced :
        (name : Text) (o : Option StepResult) (w : World)
        → IsBalanced (traced_replay_or_execute conv hits json wc name fn o w).1
    unfolding traced_replay_or_execute
    replay_or_execute-IsBalanced name (some cached) w = cache_hit-IsBalanced hits name
    replay_or_execute-IsBalanced name none w = execute-IsBalanced name w

    unless_cancelled-IsBalanced :
        (name : Text) (s : Signal) (w : World)
        → IsBalanced (traced_unless_cancelled conv hits json wc name fn s w).1
    unfolding traced_unless_cancelled
    unless_cancelled-IsBalanced name cancel_requested w = λ n a. refl
    unless_cancelled-IsBalanced name signal_none w =
        continue-IsBalanced (read_through wc name w) _ (replay_or_execute-IsBalanced name)

    -- A step leaves no span open, in whichever way it ends, if its function leaves none.
    pub traced_run-IsBalanced :
        (name : Text) (w : World) → IsBalanced (traced_run conv hits json wc name fn w).1
    unfolding traced_run
    traced_run-IsBalanced name w =
        continue-IsBalanced (track_step (resolve_step_name wc name) w) _ (λ _ w₁.
          continue-IsBalanced (check_signal wc (resolve_step_name wc name) w₁) _
            (λ s w₂. unless_cancelled-IsBalanced (resolve_step_name wc name) s w₂))

module _ (conv : Conventions) (r : WorkflowRecord) where
  give_up-Closes : (e : Error) → Closes (give_up conv r e)
  give_up-Closes e n a = ground arith

  outcome_emissions-IsBalanced :
      (p : RetryPolicy) (result : Result Text) → IsBalanced (outcome_emissions conv r p result)
  unfolding outcome_emissions
  outcome_emissions-IsBalanced p (ok json) n a = refl
  outcome_emissions-IsBalanced p (err e) n a = ground arith

  -- What an execution emits at its end.
  abbrev closing : RetryPolicy → Result Text → List Emission
  closing p result =
      adjust_active conv (down 1) r.type r.version
      ∷ record_duration conv r.type r.version
      ∷ (end_span result ++ outcome_emissions conv r p result)

  closing-Closes : (p : RetryPolicy) (result : Result Text) → Closes (closing p result)
  closing-Closes p result n a =
      ap
        (λ o.
          after (end_span result ++ outcome_emissions conv r p result)
            (stepped (record_duration conv r.type r.version) (counted (suc n) o)))
        (down_one a)
      ∙ after-append (end_span result) (outcome_emissions conv r p result) (some (suc n, a))
      ∙ ap (after (outcome_emissions conv r p result)) (end_span-Ends result n a)
      ∙ outcome_emissions-IsBalanced p result n a

  ended-Closes :
      (p : RetryPolicy) (x : (Result Text × World) × List Emission)
      → IsBalanced x.1
      → Closes (ended conv p r x).1
  unfolding ended
  ended-Closes p ((result, w), es) h n a =
      IsBalanced-append es _ (suc n, a + 1) (n, a) h (closing-Closes p result n a)

module _ (conv : Conventions) (entry : TracedEntry)
    (calm : (wc : WorkflowContext) (payload : Text) (w : World)
      → IsBalanced (entry.execute_workflow wc payload w).1)
    (r : WorkflowRecord) where
  abbrev attempted : Bool → List StepResult → World → (Result Text × World) × List Emission
  attempted b steps w =
      if b
      then ((err cancelled, w), [])
      else traced_panic_to_error
          (entry.execute_workflow (context_of r steps) r.payload (fresh_steps w))

  attempted-IsBalanced :
      (b : Bool) (steps : List StepResult) (w : World) → IsBalanced (attempted b steps w).1
  attempted-IsBalanced true steps w = λ n a. refl
  attempted-IsBalanced false steps w = calm (context_of r steps) r.payload (fresh_steps w)

  signalled-Closes :
      (steps : List StepResult) (x : Result Signal × World)
      → Closes (signalled conv entry r steps x).1
  unfolding signalled
  signalled-Closes steps (err e, w) = give_up-Closes conv r e
  signalled-Closes steps (ok s, w) =
      ended-Closes conv r entry.retry_policy (attempted (is_cancel_requested s) steps w)
        (attempted-IsBalanced (is_cancel_requested s) steps w)

  prefetched-Closes : (x : Result (List StepResult) × World) → Closes (prefetched conv entry r x).1
  unfolding prefetched
  prefetched-Closes (err e, w) = give_up-Closes conv r e
  prefetched-Closes (ok steps, w) = signalled-Closes steps (get_signal r.id w)

  acquired_by-IsBalanced : (x : Result Bool × World) → IsBalanced (acquired_by conv entry r x).1
  unfolding traced_record
  acquired_by-IsBalanced (err e, w) n a = refl
  acquired_by-IsBalanced (ok false, w) n a = refl
  acquired_by-IsBalanced (ok true, w) n a =
      prefetched-Closes (list_step_results r.type r.version r.id w) n a

-- Every span that an execution starts is ended, and the counter of active workflows is back where it was
-- and was never below, on every path: an unknown definition, a held lease, a failed prefetch or signal,
-- a cancellation, a panic, and each outcome. The code of the workflow leaves no span open itself, as a
-- sequence of steps does not.
pub traced_runner-IsBalanced :
    (conv : Conventions) (registry : List TracedEntry) (r : WorkflowRecord) (w : World)
    → All
        (λ entry.
          (wc : WorkflowContext) (payload : Text) (v : World)
          → IsBalanced (entry.execute_workflow wc payload v).1)
        registry
    → IsBalanced (traced_runner conv registry r w).1
unfolding traced_runner find? traced_entry
traced_runner-IsBalanced conv [] r w calm = λ n a. refl
traced_runner-IsBalanced conv (entry ∷ registry) r w calm =
    elim (Bool-cases (text_eq entry.name r.type)) [
      | inl here ↦ rw here (acquired_by-IsBalanced conv entry calm.0 r (acquire r.id w))
      | inr apart ↦ rw apart (traced_runner-IsBalanced conv registry r w calm.1)
    ]
