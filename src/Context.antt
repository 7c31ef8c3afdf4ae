-- ===== src/Context.antt =====
-- The `WorkflowContext` of context.go: names of steps, scopes, and the set of steps already seen.
-- The counters are those of the context's own `SleepUntil`, `Time` and `ID`.
pub mod Names
use flicker.Prelude.{ℕ, List, ◌∷◌, ◌++◌, Text, codes, is_empty, if◌then◌else◌}
use flicker.Errors.{plain, quote, ok, err}
use flicker.Records.{StepResult}
use flicker.World.{Exec}
use flicker.Leases.{contains}

pub record WorkflowContext : Type 0 where
  pub id : Text
  pub type : Text
  pub version : Text
  pub step_cache : List StepResult
  pub prefix : Text
  pub sleep_counter : ℕ
  pub time_counter : ℕ
  pub id_counter : ℕ

-- The name under a prefix, as `resolveStepName` and `Scope` join them.
unfoldable pub under : Text → Text → Text
under prefix name = if is_empty prefix then name else prefix ++ (b'/' ∷ name)

abbrev pub resolve_step_name : WorkflowContext → Text → Text
resolve_step_name wc name = under wc.prefix name

-- `trackStep`; the mutex makes it one action.
unfoldable pub track_step : Text → Exec (Unit {0})
unfolding contains
track_step name w =
    if contains name w.seen_steps
    then (
      err (
          plain (
            codes "duplicate step name "
            ++ (quote name ++ codes ": each step must have a unique name"))),
      w,
    )
    else (ok tt, record w { seen_steps = name ∷ w.seen_steps })

-- `Scope`: the child shares the cache and has counters of its own.
unfoldable pub scope : WorkflowContext → Text → WorkflowContext
unfolding under
scope wc name = record wc {
  prefix = under wc.prefix name;
  sleep_counter = 0;
  time_counter = 0;
  id_counter = 0;
}
