-- ===== src/Steps.antt =====
-- run.go and panic.go: `Run`, the durable step. `Json` stands for encoding/json at the type of the
-- step's result, which the workflow chooses. Telemetry is left out.
pub mod Durable
pub mod Replay
pub mod Resumed
use flicker.Prelude.{
  [], ◌∷◌, ◌++◌, Option, none, some, Text, codes, text_eq, is_empty, find?, if◌then◌else◌,
}
use flicker.Errors.{
  Error, plain, wrapped, quote, cancelled, event_timeout, is_step_not_found, Result, ok, err,
}
use flicker.Records.{StepResult, Signal, signal_none, cancel_requested}
use flicker.World.{World, Exec, pure, raise, wrapping, now, continue, ◌>>=◌, ◌>>◌}
use flicker.Sqlite.Workflows.{get_signal}
use flicker.Sqlite.Steps.{get_step_result, save_step_result}
use flicker.Sqlite.Events.{step_error_timeout}
use flicker.Context.{WorkflowContext, resolve_step_name, track_step}

-- `json.Marshal` and `json.Unmarshal` at a type; `none` is an error.
pub record Json (T : Type 0) : Type 0 where
  pub marshal : T → Option Text
  pub unmarshal : Text → Option T

-- How a call of the workflow's code ends: it returns, or it panics with a value and a stack.
pub data Outcome (A : Type 0) : Type 0 where
  returned : Result A → Outcome A
  panicked : Text → Text → Outcome A

abbrev pub recovered : {A : Type 0} → Outcome A → Result A
recovered (returned r) = r
recovered (panicked v stack) = err (plain (codes "panic recovered: " ++ (v ++ (10 ∷ 10 ∷ stack))))

-- `panicToError`.
unfoldable pub panic_to_error : {A : Type 0} → (World → Outcome A × World) → Exec A
panic_to_error fn w = let (o, w') = fn w in (recovered o, w')

unfoldable pub cached_step_error : Text → Error
cached_step_error s =
    if text_eq s step_error_timeout then event_timeout else plain (codes "cached step error: " ++ s)

abbrev about_step : Text → Text → Text → Text
about_step before name after = before ++ (codes " step " ++ (quote name ++ after))

-- What `GetStepResult` makes of the variable `cached`.
abbrev or_missing : Text → Result StepResult → Result (Option StepResult)
or_missing name (ok r) = ok (some r)
or_missing name (err e) =
    if is_step_not_found e
    then ok none
    else err (wrapped (about_step (codes "get") name (codes " result")) e)

abbrev or_store : WorkflowContext → Text → Option StepResult → Exec (Option StepResult)
or_store wc name (some r) w = (ok (some r), w)
or_store wc name none w =
    let (r, w') = get_step_result wc.type wc.version wc.id name w in (or_missing name r, w')

-- The prefetched cache first, then the store.
unfoldable pub read_through : WorkflowContext → Text → Exec (Option StepResult)
read_through wc name = or_store wc name (find? (λ r. text_eq r.step_name name) wc.step_cache)

unfoldable pub check_signal : WorkflowContext → Text → Exec Signal
unfolding get_signal
check_signal wc name =
    wrapping (codes "check signal for" ++ (codes " step " ++ quote name)) (get_signal wc.id)

module _ {T : Type 0} (json : Json T) where
  abbrev pub decoded : Text → Option T → Result T
  decoded name none = err (
      wrapped (about_step (codes "unmarshal") name (codes " cached result")) (plain (codes "json")))
  decoded name (some v) = ok v

  -- A nil `Result` is no JSON text.
  abbrev pub unmarshal_result : Option Text → Option T
  unmarshal_result none = none
  unmarshal_result (some raw) = json.unmarshal raw

  unfoldable pub replay : Text → StepResult → Result T
  unfolding cached_step_error
  replay name cached =
      if is_empty cached.error
      then decoded name (unmarshal_result cached.result)
      else err (cached_step_error cached.error)

  abbrev pub encoded : Text → Option Text → Result Text
  encoded name none =
      err (wrapped (about_step (codes "marshal") name (codes " result")) (plain (codes "json")))
  encoded name (some raw) = ok raw

  unfoldable pub execute_step : WorkflowContext → Text → (World → Outcome T × World) → Exec T
  unfolding panic_to_error now save_step_result
  execute_step wc name fn = do
    result ← panic_to_error fn
    raw ← (λ w. (encoded name (json.marshal result), w))
    t ← now
    wrapping (about_step (codes "save") name (codes " result")) (
        save_step_result (record {
          type = wc.type;
          version = wc.version;
          workflow_id = wc.id;
          step_name = name;
          result = some raw;
          error = [];
          created_at = t;
        }))
    pure result

  abbrev pub replay_or_execute :
      WorkflowContext → Text → (World → Outcome T × World) → Option StepResult → Exec T
  replay_or_execute wc name fn (some cached) w = (replay name cached, w)
  replay_or_execute wc name fn none w = execute_step wc name fn w

  -- The rest of `Run` behind the read of the signal.
  unfoldable pub unless_cancelled :
      WorkflowContext → Text → (World → Outcome T × World) → Signal → Exec T
  unless_cancelled wc name fn cancel_requested w = (err cancelled, w)
  unless_cancelled wc name fn signal_none w =
      continue (read_through wc name w) (replay_or_execute wc name fn)

  -- `Run` below the resolution of the name.
  unfoldable pub run_resolved : WorkflowContext → Text → (World → Outcome T × World) → Exec T
  run_resolved wc name fn = do
    track_step name
    signal ← check_signal wc name
    unless_cancelled wc name fn signal

  unfoldable pub run : WorkflowContext → Text → (World → Outcome T × World) → Exec T
  run wc name fn = run_resolved wc (resolve_step_name wc name) fn
