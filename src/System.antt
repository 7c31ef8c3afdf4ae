-- ===== src/System.antt =====
-- The whole system as one state machine over the store: clients that submit, cancel and send events,
-- promoters, schedulers and runners of any number of engines on one database. A transition is one call
-- of the store of sqlite/sqlite.go, failing calls included, so transitions interleave where the
-- goroutines and processes do. `handed` are the records that schedulers read and gave to runners.
pub mod Advance
pub mod Moves
pub mod Calls
pub mod Final
pub mod Wakeup
pub mod Once
use flicker.Prelude.{ℕ, ◌≡◌, List, [], ◌∷◌, ◌++◌, Text}
use flicker.Time.{Time}
use flicker.Errors.{Result, ok}
use flicker.Records.{WorkflowRecord, RetryPolicy, Signal}
use flicker.World.{World}
use flicker.Sqlite.Workflows.{create, set_signal, promote_suspended, list_schedulable}
use flicker.Sqlite.Events.{resume_subscription, time_out_subscriptions}
use flicker.Runner.{resolve_outcome}

pub record System : Type 0 where
  pub world : World
  pub handed : List WorkflowRecord

pub data Change : System → System → Type 0 where
  -- `Submit` and `SetSignal` by clients, `SendEvent`.
  submits : (s : System) (r : WorkflowRecord) → Change s (record s { world = (create r s.world).1 })
  signals :
      (s : System) (id : Text) (signal : Signal)
      → Change s (record s { world = (set_signal id signal s.world).1 })
  sends :
      (s : System) (key payload : Text)
      → Change s (record s { world = (resume_subscription key payload s.world).1 })
  -- The two halves of a promotion cycle.
  promotes :
      (s : System) (t : Time) → Change s (record s { world = (promote_suspended t s.world).1 })
  times_out :
      (s : System) (t : Time) → Change s (record s { world = (time_out_subscriptions t s.world).1 })
  -- A poll.
  polls :
      (s : System) (limit : ℕ) (rs : List WorkflowRecord) (w : World)
      → list_schedulable limit s.world ≡ (ok rs, w)
      → Change s (record { world = w; handed = rs ++ s.handed })
  -- A runner ends an execution, with any outcome.
  resolves :
      (s : System) (before after : List WorkflowRecord) (r : WorkflowRecord) (p : RetryPolicy)
      (result : Result Text)
      → s.handed ≡ before ++ (r ∷ after)
      → Change s (record s { world = (resolve_outcome r p result s.world).1 })
  -- Anything else that leaves the table of the workflows alone: steps, subscriptions, leases, reads.
  works :
      (s : System) (w : World)
      → w.tables.workflows ≡ s.world.tables.workflows
      → Change s (record s { world = w })

-- What can follow.
pub data Reach (s : System) : System → Type 0 where
  here : Reach s s
  next : (t u : System) → Reach s t → Change t u → Reach s u

-- An empty database.
pub data Starts : System → Type 0 where
  starts : (s : System) → s.world.tables.workflows ≡ [] → s.handed ≡ [] → Starts s
