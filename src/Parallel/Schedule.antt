-- ===== src/Parallel/Schedule.antt =====
-- The goroutines of `Parallel` (parallel.go) under any scheduler: one turn is one call that a
-- branch makes, in any order of the branches, or the end of a goroutine with its `wg.Done`. A
-- goroutine that is not started yet is one that has made no call. Between two calls a branch changes
-- nothing that the others see.
pub mod Outcomes
pub mod InOrder
pub mod Returns
use flicker.Prelude.{ℕ, ◌-◌, ◌≡◌, List, [], ◌∷◌, ◌++◌, map, Option, none, some, Text, length}
use flicker.Errors.{Error}
use flicker.World.{World}
use flicker.Context.{WorkflowContext, scope}
use flicker.Steps.{Outcome, recovered}
use flicker.Parallel.{Branch, error_of, join_errors}

-- What is left of `branch.run`: it has returned or panicked, or it makes a call, which changes the
-- world, and goes on with what it read.
pub data Goroutine : Type 0 where
  ended : Outcome (Unit {0}) → Goroutine
  calls : (World → World) → (World → Goroutine) → Goroutine

-- The goroutine with no other beside it.
unfoldable pub run_alone : Goroutine → World → Outcome (Unit {0}) × World
run_alone (ended o) w = (o, w)
run_alone (calls call next) w = run_alone (next w) (call w)

-- A branch whose function is cut into its calls.
pub record Fork : Type 0 where
  pub name : Text
  pub body : WorkflowContext → Goroutine

abbrev pub branch_from : Fork → Branch
branch_from f = record { name = f.name; run = λ wc w. run_alone (f.body wc) w }

-- The index of a branch: its goroutine, or the error that it left in `errs`.
pub data Slot : Type 0 where
  going : Goroutine → Slot
  left : Option Error → Slot

pub record ParallelState : Type 0 where
  pub slots : List Slot
  -- The counter of the wait group.
  pub waiting : ℕ
  pub world : World

-- After the loop of `go` statements.
abbrev pub forked : WorkflowContext → List Fork → World → ParallelState
forked wc fs w = record {
  slots = map (λ f. going (f.body (scope wc f.name))) fs;
  waiting = length fs;
  world = w;
}

abbrev pub make_call :
    List Slot → (World → World) → (World → Goroutine) → List Slot → ParallelState → ParallelState
make_call before call next after s = record s {
  slots = before ++ (going (next s.world) ∷ after);
  world = call s.world;
}

-- `errs[idx] = panicToError(...)` and the deferred `wg.Done`.
abbrev pub leave : List Slot → Outcome (Unit {0}) → List Slot → ParallelState → ParallelState
leave before o after s = record s {
  slots = before ++ (left (error_of (recovered o)) ∷ after);
  waiting = s.waiting - 1;
}

pub data Turn : ParallelState → ParallelState → Type 0 where
  makes_call :
      (s : ParallelState) (before after : List Slot) (call : World → World)
      (next : World → Goroutine)
      → s.slots ≡ before ++ (going (calls call next) ∷ after)
      → Turn s (make_call before call next after s)
  leaves :
      (s : ParallelState) (before after : List Slot) (o : Outcome (Unit {0}))
      → s.slots ≡ before ++ (going (ended o) ∷ after)
      → Turn s (leave before o after s)

-- Any sequence of turns.
pub data Turns : ParallelState → ParallelState → Type 0 where
  stays : (s : ParallelState) → Turns s s
  goes_by : (s t u : ParallelState) → Turn s t → Turns t u → Turns s u

-- `errs`: nil where the branch has left no error yet.
abbrev pub slot_error : Slot → Option Error
slot_error (going g) = none
slot_error (left e) = e

-- What `Parallel` returns once `wg.Wait` has.
abbrev pub parallel_result : ParallelState → Option Error
parallel_result s = join_errors (map slot_error s.slots)
