-- ===== src/Engine/Start.antt =====
-- `Engine.Start` of engine.go with the loop of scheduler.go: what the goroutines of promoters,
-- scheduler and workers do, one transition at a time in any order. The state is the buffer of the
-- channel `nudge`, which holds one signal, the records that were submitted to the pool, the
-- workflows that workers execute, the leases and the counter of the wait group. A poll dispatches
-- any records, and the pool may start its tasks in any order; what an execution does to the store
-- is that of the runner.
pub mod Exclusive
pub mod Drain
use flicker.Prelude.{
  ℕ, ◌+◌, ◌≡◌, Bool, true, false, List, [], ◌∷◌, ◌++◌, Text, length, if◌then◌else◌,
}
use Prim.Native.Nat.{◌-◌}
use flicker.Records.{WorkflowRecord}
use flicker.Leases.{contains, remove}

pub record EngineState : Type 0 where
  pub nudged : Bool
  -- Whether `scheduler.Start` has returned.
  pub stopped : Bool
  -- Whether the drain timer has cancelled `drainCtx`.
  pub force_cancelled : Bool
  pub submitted : List WorkflowRecord
  pub executing : List Text
  pub leases : List Text
  pub in_flight : ℕ

abbrev pub engine_start : EngineState
engine_start = record {
  nudged = false;
  stopped = false;
  force_cancelled = false;
  submitted = [];
  executing = [];
  leases = [];
  in_flight = 0;
}

-- `dispatch`: `wg.Add(1)` and `pool.Submit` for each record. One transition dispatches a whole batch: a
-- worker that begins in between could as well begin behind it.
unfoldable pub dispatch : List WorkflowRecord → EngineState → EngineState
dispatch [] s = s
dispatch (r ∷ rs) s =
    dispatch rs (record s { submitted = s.submitted ++ (r ∷ []); in_flight = s.in_flight + 1 })

-- A task is over without an execution.
abbrev pub skip_run : List WorkflowRecord → EngineState → EngineState
skip_run rest s = record s { submitted = rest; in_flight = s.in_flight - 1 }

-- A worker begins a task: the runner asks for the lease, and returns at once where it is held.
abbrev pub begin_run : WorkflowRecord → List WorkflowRecord → EngineState → EngineState
begin_run r rest s =
    if contains r.id s.leases
    then skip_run rest s
    else record s { submitted = rest; executing = r.id ∷ s.executing; leases = r.id ∷ s.leases }

-- An execution ends: the deferred `Release` and `wg.Done`, in one transition. Between the two the code
-- counts a workflow in the wait group that is in execution no more.
abbrev pub end_run : Text → List Text → EngineState → EngineState
end_run id rest s = record s {
  executing = rest;
  leases = remove id s.leases;
  in_flight = s.in_flight - 1;
}

pub data Transition : EngineState → EngineState → Type 0 where
  -- `ready`: the signal is dropped if there is one.
  signals : (s : EngineState) → Transition s (record s { nudged = true })
  -- The two ways to a poll.
  ticks :
      (s : EngineState) (rs : List WorkflowRecord)
      → s.stopped ≡ false
      → Transition s (dispatch rs s)
  receives :
      (s : EngineState) (rs : List WorkflowRecord)
      → s.stopped ≡ false
      → s.nudged ≡ true
      → Transition s (dispatch rs (record s { nudged = false }))
  -- The context is cancelled, and the scheduler returns.
  stops : (s : EngineState) → Transition s (record s { stopped = true })
  -- The drain timer, which starts when the scheduler has returned.
  drains : (s : EngineState) → s.stopped ≡ true → Transition s (record s { force_cancelled = true })
  begins :
      (s : EngineState) (before after : List WorkflowRecord) (r : WorkflowRecord)
      → s.submitted ≡ before ++ (r ∷ after)
      → Transition s (begin_run r (before ++ after) s)
  -- The runner does not know the workflow's definition.
  refuses :
      (s : EngineState) (before after : List WorkflowRecord) (r : WorkflowRecord)
      → s.submitted ≡ before ++ (r ∷ after)
      → Transition s (skip_run (before ++ after) s)
  ends :
      (s : EngineState) (before after : List Text) (id : Text)
      → s.executing ≡ before ++ (id ∷ after)
      → Transition s (end_run id (before ++ after) s)

-- What `Start` can reach.
pub data Reachable : EngineState → Type 0 where
  starts : Reachable engine_start
  goes : (s s' : EngineState) → Reachable s → Transition s s' → Reachable s'

-- `wg.Wait` returns, and with it `Start`.
pub data Returned : EngineState → Type 0 where
  returns : (s : EngineState) → s.stopped ≡ true → s.in_flight ≡ 0 → Returned s
