-- ===== src/Engine.antt =====
-- engine.go, trigger.go and one cycle of promoter.go and scheduler.go: a cycle is one action. `Start`
-- is in Engine/Start.
pub mod Dispatch
pub mod Start
pub mod Loops
pub mod Options
use flicker.Prelude.{ℕ, Bool, ◌||◌, List, [], ◌∷◌, Option, none, some, Text, codes, ltb}
use flicker.Errors.{Error, plain, wrapped, workflow_execution, Result, ok, err}
use flicker.Records.{WorkflowRecord}
use flicker.World.{World, Exec, raise, wrapping, now, ◌>>=◌}
use flicker.Sqlite.Workflows.{promote_suspended, list_schedulable}
use flicker.Sqlite.Events.{resume_subscription}
use flicker.Sqlite.Events
use flicker.Runner.{RegistryEntry}
use flicker.Runner

-- `promote`; `Engine.Promote` adds telemetry only.
unfoldable pub promote : Exec ℕ
unfolding now promote_suspended
promote = do t ← now; promote_suspended t

unfoldable pub time_out_subscriptions : Exec ℕ
unfolding now Events.time_out_subscriptions
time_out_subscriptions = do t ← now; Events.time_out_subscriptions t

-- `SendEvent`, at what `json.Marshal` makes of the payload.
unfoldable pub send_event : Text → Option Text → Exec (Unit {0})
unfolding resume_subscription
send_event key none = raise (wrapped (codes "marshal event payload") (plain (codes "json")))
send_event key (some raw) = wrapping (codes "resume subscription") (resume_subscription key raw)

abbrev or_zero : Result ℕ → ℕ
or_zero (ok n) = n
or_zero (err e) = 0

-- One tick of `PollingTimePromoter`; the result says whether it calls `ready`.
unfoldable pub promotion_cycle : World → Bool × World
unfolding promote time_out_subscriptions
promotion_cycle w =
    let (r₁, w₁) = promote w in
    let (r₂, w₂) = time_out_subscriptions w₁ in (ltb 0 (or_zero r₁) || ltb 0 (or_zero r₂), w₂)

abbrev pub listed : Result (List WorkflowRecord) → List WorkflowRecord
listed (ok records) = records
listed (err e) = []

-- `PollingScheduler.poll`: the records that it dispatches.
unfoldable pub poll : ℕ → World → List WorkflowRecord × World
unfolding list_schedulable
poll limit w = let (r, w') = list_schedulable limit w in (listed r, w')

abbrev note_error : Text → Option Error → Result (Unit {0}) → Option Error
note_error id none (err e) = some (workflow_execution id e)
note_error id first r = first

-- The loop of `RunOnce`: a failed workflow does not stop the later ones.
unfoldable pub run_all :
    List RegistryEntry → Option Error → List WorkflowRecord → World → Option Error × World
unfolding Runner.run
run_all registry first [] w = (first, w)
run_all registry first (r ∷ rs) w =
    let (result, w') = Runner.run registry r w in
    run_all registry (note_error r.id first result) rs w'

abbrev result_of : Option Error → Result (Unit {0})
result_of none = ok tt
result_of (some e) = err e

abbrev run_listed : List RegistryEntry → List WorkflowRecord → Exec (Unit {0})
run_listed registry rs w = let (first, w') = run_all registry none rs w in (result_of first, w')

unfoldable pub run_once : List RegistryEntry → ℕ → Exec (Unit {0})
unfolding list_schedulable run_all
run_once registry workers = do
  records ← wrapping (codes "list schedulable") (list_schedulable workers)
  run_listed registry records
