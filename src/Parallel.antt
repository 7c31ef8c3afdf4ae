-- ===== src/Parallel.antt =====
-- parallel.go. A branch's error is `none` for nil. `parallel` runs the branches one after another, in the
-- order of the arguments; Parallel/Schedule has the other schedules.
pub mod Join
pub mod Schedule
use flicker.Prelude.{List, [], ◌∷◌, Option, none, some, Text, is_empty, if◌then◌else◌}
use flicker.Time.{Time, before}
use flicker.Errors.{Error, suspend, is_suspend, Result, ok, err}
use flicker.World.{World, Exec}
use flicker.Context.{WorkflowContext, scope}
use flicker.Steps.{Outcome, panic_to_error}

-- `Branch`; the name is not empty (`NewBranch` panics).
pub record Branch : Type 0 where
  pub name : Text
  pub run : WorkflowContext → World → Outcome (Unit {0}) × World

unfoldable pub new_branch :
    Text → (WorkflowContext → World → Outcome (Unit {0}) × World) → Option Branch
new_branch name run = if is_empty name then none else some (record { name = name; run = run })

-- The variables of the loop over `errs`.
pub record Joined : Type 0 where
  pub latest_suspend : Option Time
  pub first_err : Option Error

abbrev later : Option Time → Time → Option Time
later none t = some t
later (some u) t = if before u t then some t else some u

abbrev first : Option Error → Error → Option Error
first none e = some e
first (some f) e = some f

-- One round of that loop, at an error that is not nil.
unfoldable pub join_error : Joined → Error → Joined
unfolding is_suspend
join_error j e = elim (is_suspend e) [
  | some t ↦ record j { latest_suspend = later j.latest_suspend t }
  | none ↦ record j { first_err = first j.first_err e }
]

unfoldable pub join_from : Joined → List (Option Error) → Joined
unfolding join_error
join_from j [] = j
join_from j (none ∷ es) = join_from j es
join_from j (some e ∷ es) = join_from (join_error j e) es

abbrev pub priority : Option Error → Option Time → Option Error
priority (some e) latest = some e
priority none (some t) = some (suspend t)
priority none none = none

-- What `Parallel` returns for the branches' errors.
unfoldable pub join_errors : List (Option Error) → Option Error
unfolding join_from
join_errors es =
    let j = join_from (record { latest_suspend = none; first_err = none }) es in
    priority j.first_err j.latest_suspend

abbrev pub error_of : Result (Unit {0}) → Option Error
error_of (ok tt) = none
error_of (err e) = some e

unfoldable pub run_branches : WorkflowContext → List Branch → World → List (Option Error) × World
unfolding panic_to_error
run_branches wc [] w = ([], w)
run_branches wc (b ∷ bs) w =
    let (r, w₁) = panic_to_error (b.run (scope wc b.name)) w in
    let (es, w₂) = run_branches wc bs w₁ in (error_of r ∷ es, w₂)

abbrev pub result_of : Option Error → Result (Unit {0})
result_of none = ok tt
result_of (some e) = err e

unfoldable pub parallel : WorkflowContext → List Branch → Exec (Unit {0})
unfolding run_branches join_errors
parallel wc bs w = let (es, w') = run_branches wc bs w in (result_of (join_errors es), w')
