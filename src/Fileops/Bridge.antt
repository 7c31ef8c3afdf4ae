-- ===== src/Fileops/Bridge.antt =====
-- The event bridge of examples/fileops/events.go and the submission of a cycle of main.go. The lines
-- that the scanner reads from the pipe are an argument, and so is the JSON of a signal.
use flicker.Prelude.{
  ℕ, zero, suc, Bool, true, false, List, [], ◌∷◌, ◌++◌, Option, none, some, Text, codes, is_empty,
  if◌then◌else◌,
}
use flicker.Errors.{Result, ok, err}
use flicker.Records.{Status}
use flicker.World.{World, Exec}
use flicker.Engine.{send_event}
use flicker.Steps.{Json}
use flicker.Registry.{WorkflowDef, WorkflowResult, submit, typed_result}
use flicker.Fileops.{CycleRequest, CycleReport}
use flicker.Fileops.Config.{Config}
use flicker.Fileops.Wrangler.{CleanupSignal}

abbrev pub cleanup_key : Text → Text
cleanup_key line = codes "cleanup:" ++ line

abbrev cleanup_signal : Text → CleanupSignal
cleanup_signal line = record { reason = codes "manual trigger for cycle " ++ line }

-- One line; an error of `SendEvent` is logged only.
unfoldable pub deliver_line : Json CleanupSignal → Text → World → World
unfolding send_event
deliver_line SignalJson line w =
    if is_empty line
    then w
    else (send_event (cleanup_key line) (SignalJson.marshal (cleanup_signal line)) w).1

unfoldable pub bridge_lines : Json CleanupSignal → (Text → Text) → List Text → World → World
unfolding deliver_line
bridge_lines SignalJson trim_space [] w = w
bridge_lines SignalJson trim_space (raw ∷ lines) w =
    bridge_lines SignalJson trim_space lines (deliver_line SignalJson (trim_space raw) w)

-- `factory.Submit` of `submitCycle`.
unfoldable pub submit_cycle :
    Json CycleRequest → WorkflowDef CycleRequest CycleReport → Config → ℕ → Exec Text
unfolding submit
submit_cycle RequestJson d config cycle_num =
    submit RequestJson d
      (record {
        work_dir = config.work_dir;
        archive_dir = config.archive_dir;
        cycle_num = cycle_num;
      })
      []

abbrev pub ends_watch : Status → Bool
ends_watch Status.completed = true
ends_watch Status.failed = true
ends_watch _ = false

abbrev watched :
    Result (WorkflowResult CycleReport) × World
    → (World → Option Status × World)
    → Option Status × World
watched (err e, w) rest = rest w
watched (ok result, w) rest = if ends_watch result.status then (some result.status, w) else rest w

-- The polling of `submitCycle`, at the number of ticks before its timeout: the status that ends it, or
-- `none`.
unfoldable pub watch_cycle : Json CycleReport → Text → ℕ → World → Option Status × World
unfolding typed_result
watch_cycle ReportJson id zero w = (none, w)
watch_cycle ReportJson id (suc ticks) w =
    watched (typed_result ReportJson id w) (watch_cycle ReportJson id ticks)
