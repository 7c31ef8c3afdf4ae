-- ===== src/Runner.antt =====
-- runner.go: one execution of a workflow by `LocalRunner.Run`, and `resolveOutcome`. Telemetry and
-- logging are left out.
pub mod Resolve
pub mod Backoff
pub mod Lease
pub mod Prefetch
use flicker.Prelude.{
  ℕ, ◌+◌, ◌-◌, ◌*◌, ◌%◌, ◌^◌, Bool, List, [], ◌∷◌, Option, none, some, Text, codes, text_eq, find?,
  ltb, leb, if◌then◌else◌,
}
use flicker.Time.{Time}
use flicker.Errors.{
  Error, cancelled, definition_not_found, message, is_suspend, as_permanent, is_cancelled, Result,
  ok, err,
}
use flicker.Records.{
  WorkflowRecord, RetryPolicy, StepResult, Status, completed, failed, is_cancel_requested,
}
use flicker.World.{World, Exec, pure, raise, wrapping, now, ◌>>=◌}
use flicker.Sqlite.Workflows.{update_status, set_error, set_retry, suspend, get_signal}
use flicker.Sqlite.Steps.{list_step_results}
use flicker.Leases.{acquire, release}
use flicker.Context.{WorkflowContext}
use flicker.Steps.{Outcome, panic_to_error}

-- A registered definition under its `defName`: `executeWorkflow` at a context and a payload.
pub record RegistryEntry : Type 0 where
  pub name : Text
  pub execute_workflow : WorkflowContext → Text → World → Outcome Text × World
  pub retry_policy : RetryPolicy

abbrev pub int64_mod : ℕ
int64_mod = 2 ^ 64

-- A `time.Duration` is the bit pattern of its int64: from 2⁶³ on it is negative.
abbrev pub is_negative : ℕ → Bool
is_negative d = leb (2 ^ 63) d

-- `BaseDelay << Attempts`, capped by `MaxDelay`.
unfoldable pub retry_delay : RetryPolicy → ℕ → ℕ
retry_delay p attempts =
    let delay = p.base_delay * 2 ^ attempts % int64_mod in
    if is_negative delay then delay else if ltb p.max_delay delay then p.max_delay else delay

-- `t.Add(d)`.
unfoldable pub add_duration : Time → ℕ → Time
add_duration t d = if is_negative d then t - (int64_mod - d) else t + d

unfoldable pub retry_or_fail : WorkflowRecord → RetryPolicy → Error → Exec (Unit {0})
unfolding now retry_delay add_duration
retry_or_fail r p e =
    if leb p.max_attempts (r.attempts + 1)
    then set_error r.id failed (message e) r.occ_version
    else do t ← now; set_retry r.id (add_duration t (retry_delay p r.attempts)) r.occ_version

unfoldable pub resolve_error : WorkflowRecord → RetryPolicy → Error → Exec (Unit {0})
unfolding is_cancelled as_permanent is_suspend retry_or_fail
resolve_error r p e =
    if is_cancelled e
    then update_status r.id Status.cancelled none r.occ_version
    else elim (as_permanent e) [
      | some cause ↦ set_error r.id failed (message cause) r.occ_version
      | none ↦ elim (is_suspend e) [
        | some t ↦ suspend r.id t r.occ_version
        | none ↦ retry_or_fail r p e
      ]
    ]

unfoldable pub resolve_outcome : WorkflowRecord → RetryPolicy → Result Text → Exec (Unit {0})
unfolding resolve_error
resolve_outcome r p (err e) = resolve_error r p e
resolve_outcome r p (ok json) = update_status r.id completed (some json) r.occ_version

-- The context that `Run` builds, its cache indexed by name: of two results the later one counts.
abbrev pub push_all {ℓ} : {A : Type ℓ} → List A → List A → List A
push_all [] acc = acc
push_all (x ∷ xs) acc = push_all xs (x ∷ acc)

abbrev pub context_of : WorkflowRecord → List StepResult → WorkflowContext
context_of r steps = record {
  id = r.id;
  type = r.type;
  version = r.version;
  step_cache = push_all steps [];
  prefix = [];
  sleep_counter = 0;
  time_counter = 0;
  id_counter = 0;
}

abbrev pub fresh_steps : World → World
fresh_steps w = record w { seen_steps = [] }

-- `execErr` and `resultJSON`.
abbrev pub attempt : {A : Type 0} → Exec A → Exec (Result A)
attempt m w = let (r, w') = m w in (ok r, w')

unfoldable pub execute_record : RegistryEntry → WorkflowRecord → Exec (Unit {0})
unfolding panic_to_error
execute_record entry r = do
  steps ← wrapping (codes "prefetch step results") (list_step_results r.type r.version r.id)
  signal ← wrapping (codes "get signal") (get_signal r.id)
  result ←
      if is_cancel_requested signal
      then pure (err cancelled)
      else attempt (λ w.
        panic_to_error (entry.execute_workflow (context_of r steps) r.payload) (fresh_steps w))
  resolve_outcome r entry.retry_policy result

-- The deferred `Release`.
abbrev pub releasing : Text → Exec (Unit {0}) → Exec (Unit {0})
releasing id m w = let (r, w') = m w in (r, (release id w').1)

unfoldable pub run_entry : RegistryEntry → WorkflowRecord → Exec (Unit {0})
unfolding acquire release
run_entry entry r = do
  acquired ← acquire r.id
  if acquired then releasing r.id (execute_record entry r) else pure tt

-- `r.registry[record.Type]`.
unfoldable pub lookup_entry : Text → List RegistryEntry → Option RegistryEntry
unfolding find?
lookup_entry type entries = find? (λ e. text_eq e.name type) entries

unfoldable pub run : List RegistryEntry → WorkflowRecord → Exec (Unit {0})
unfolding lookup_entry
run registry r = elim (lookup_entry r.type registry) [
  | none ↦ raise (definition_not_found r.type)
  | some entry ↦ run_entry entry r
]
