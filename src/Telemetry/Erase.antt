-- ===== src/Telemetry/Erase.antt =====
-- Telemetry changes nothing of what the program does.
use flicker.Prelude.{
  ◌≡◌, refl, sym, ap, ◌∙◌, Bool, true, false, List, [], ◌∷◌, map, Option, none, some, Text, codes,
  find?, text_eq, arith, if◌then◌else◌,
}
use flicker.Errors.{Result, cancelled, definition_not_found, ok, err}
use flicker.Records.{
  WorkflowRecord, Signal, StepResult, signal_none, cancel_requested, is_cancel_requested,
}
use flicker.World.{World, Exec, continue, pure, raise, wrapping, wrap_error, ◌>>=◌}
use flicker.Semconv.{Conventions}
use flicker.Context.{WorkflowContext, resolve_step_name, track_step}
use flicker.Sqlite.Workflows.{get_signal}
use flicker.Sqlite.Steps.{list_step_results}
use flicker.Leases.{acquire, release}
use flicker.Steps.{
  Json, Outcome, run, run_resolved, unless_cancelled, replay_or_execute, check_signal, read_through,
  panic_to_error,
}
use flicker.Runner.{
  RegistryEntry, execute_record, run_entry, lookup_entry, resolve_outcome, context_of, attempt,
  fresh_steps, releasing,
}
use flicker.Runner
use flicker.Telemetry.{Traced, continue_traced}
use flicker.Telemetry.Run.{
  traced_replay_or_execute, traced_execute, traced_unless_cancelled, traced_run,
}
use flicker.Telemetry.Execution.{
  TracedEntry, plain_entry, traced_panic_to_error, ended, signalled, prefetched, traced_record,
  acquired_by, traced_entry, traced_chosen, traced_runner,
}

continue_traced-continue :
    {A B : Type 0} (x : Result A × World) (f : A → Traced (Result B))
    (g : A → World → Result B × World)
    → ((a : A) (w : World) → (f a w).0 ≡ g a w)
    → (continue_traced x f).0 ≡ continue x g
continue_traced-continue (ok a, w) f g h = h a w
continue_traced-continue (err e, w) f g h = refl

module _ (conv : Conventions) (hits : Bool) {T : Type 0} (json : Json T)
    (wc : WorkflowContext) where
  replay_or_execute-erased :
      (name : Text) (fn : Traced (Outcome T)) (o : Option StepResult) (w : World)
      → (traced_replay_or_execute conv hits json wc name fn o w).0
        ≡ replay_or_execute json wc name (λ v. (fn v).0) o w
  unfolding traced_replay_or_execute traced_execute
  replay_or_execute-erased name fn none w = refl
  replay_or_execute-erased name fn (some cached) w = refl

  unless_cancelled-erased :
      (name : Text) (fn : Traced (Outcome T)) (s : Signal) (w : World)
      → (traced_unless_cancelled conv hits json wc name fn s w).0
        ≡ unless_cancelled json wc name (λ v. (fn v).0) s w
  unfolding traced_unless_cancelled unless_cancelled
  unless_cancelled-erased name fn cancel_requested w = refl
  unless_cancelled-erased name fn signal_none w =
      continue_traced-continue (read_through wc name w) _ _ (replay_or_execute-erased name fn)

  pub traced_run-run :
      (name : Text) (fn : Traced (Outcome T)) (w : World)
      → (traced_run conv hits json wc name fn w).0 ≡ run json wc name (λ v. (fn v).0) w
  unfolding traced_run run run_resolved
  traced_run-run name fn w =
      continue_traced-continue (track_step (resolve_step_name wc name) w) _ _ (λ _ w₁.
        continue_traced-continue (check_signal wc (resolve_step_name wc name) w₁) _ _
          (λ s w₂. unless_cancelled-erased (resolve_step_name wc name) fn s w₂))

module _ (conv : Conventions) (entry : TracedEntry) (r : WorkflowRecord) where
  abbrev attempted : List StepResult → Signal → Exec (Result Text)
  attempted steps signal =
      if is_cancel_requested signal
      then pure (err cancelled)
      else attempt (λ w.
        panic_to_error ((plain_entry entry).execute_workflow (context_of r steps) r.payload)
          (fresh_steps w))

  abbrev judged : List StepResult → Signal → Exec (Unit {0})
  judged steps signal = attempted steps signal >>= resolve_outcome r entry.retry_policy

  attempted-erased :
      (steps : List StepResult) (b : Bool) (w : World)
      → (ended conv entry.retry_policy r (
          if b
          then ((err cancelled, w), [])
          else traced_panic_to_error
              (entry.execute_workflow (context_of r steps) r.payload (fresh_steps w)))).0
        ≡ ((if b
                then pure (err cancelled)
                else attempt (λ v.
                  panic_to_error
                    ((plain_entry entry).execute_workflow (context_of r steps) r.payload)
                    (fresh_steps v)))
              >>= resolve_outcome r entry.retry_policy)
            w
  unfolding ended panic_to_error
  attempted-erased steps true w = refl
  attempted-erased steps false w = refl

  signalled-erased :
      (steps : List StepResult) (x : Result Signal × World)
      → (signalled conv entry r steps x).0
        ≡ continue (wrap_error (codes "get signal") x.0, x.1) (judged steps)
  unfolding signalled
  signalled-erased steps (err e, w) = refl
  signalled-erased steps (ok s, w) = attempted-erased steps (is_cancel_requested s) w

  prefetched-erased :
      (x : Result (List StepResult) × World)
      → (prefetched conv entry r x).0
        ≡ continue
            (wrap_error (codes "prefetch step results") x.0, x.1)
            (λ steps. wrapping (codes "get signal") (get_signal r.id) >>= judged steps)
  unfolding prefetched
  prefetched-erased (err e, w) = refl
  prefetched-erased (ok steps, w) = signalled-erased steps (get_signal r.id w)

  traced_record-erased :
      (w : World) → (traced_record conv entry r w).0 ≡ execute_record (plain_entry entry) r w
  unfolding traced_record execute_record
  traced_record-erased w = prefetched-erased (list_step_results r.type r.version r.id w)

  acquired_by-erased :
      (x : Result Bool × World)
      → (acquired_by conv entry r x).0
        ≡ continue x
            (λ b. if b then releasing r.id (execute_record (plain_entry entry) r) else pure tt)
  acquired_by-erased (err e, w) = refl
  acquired_by-erased (ok false, w) = refl
  acquired_by-erased (ok true, w) = ap (λ x. (x.0, (release r.id x.1).1)) (traced_record-erased w)

  traced_entry-erased :
      (w : World) → (traced_entry conv entry r w).0 ≡ run_entry (plain_entry entry) r w
  unfolding traced_entry run_entry
  traced_entry-erased w = acquired_by-erased (acquire r.id w)

abbrev plain_option : Option TracedEntry → Option RegistryEntry
plain_option none = none
plain_option (some e) = some (plain_entry e)

lookup_entry-map :
    (type : Text) (registry : List TracedEntry)
    → lookup_entry type (map plain_entry registry)
      ≡ plain_option (find? (λ e. text_eq e.name type) registry)
unfolding lookup_entry find?
lookup_entry-map type [] = refl
lookup_entry-map type (e ∷ es) = ground (arith, lookup_entry-map type es)

abbrev chosen : WorkflowRecord → Option RegistryEntry → Exec (Unit {0})
chosen r none = raise (definition_not_found r.type)
chosen r (some entry) = run_entry entry r

run-chosen :
    (registry : List RegistryEntry) (r : WorkflowRecord) (w : World)
    → Runner.run registry r w ≡ chosen r (lookup_entry r.type registry) w
unfolding Runner.run
run-chosen registry r w = ground arith

traced_chosen-erased :
    (conv : Conventions) (r : WorkflowRecord) (o : Option TracedEntry) (w : World)
    → (traced_chosen conv r o w).0 ≡ chosen r (plain_option o) w
traced_chosen-erased conv r none w = refl
traced_chosen-erased conv r (some entry) w = traced_entry-erased conv entry r w

-- The runner with telemetry returns and leaves what the runner without it does, on every path.
traced_runner-run :
    (conv : Conventions) (registry : List TracedEntry) (r : WorkflowRecord) (w : World)
    → (traced_runner conv registry r w).0 ≡ Runner.run (map plain_entry registry) r w
unfolding traced_runner
traced_runner-run conv registry r w =
    traced_chosen-erased conv r (find? (λ e. text_eq e.name r.type) registry) w
    ∙ sym (ap (λ o. chosen r o w) (lookup_entry-map r.type registry))
    ∙ sym (run-chosen (map plain_entry registry) r w)
