-- ===== src/Tests/Branches.antt =====
-- Two branches, of which the second ends while the first still has a call to make.
use flicker.Prelude.{◌≡◌, refl, List, [], ◌∷◌, map, codes, some}
use flicker.Errors.{plain, err}
use flicker.World.{World}
use flicker.Steps.{Outcome, returned, panicked}
use flicker.Parallel.{join_errors}
use flicker.Parallel.Schedule.{
  ended, calls, Fork, going, left, ParallelState, forked, make_call, leave, makes_call, leaves,
  Turns, stays, goes_by, parallel_result,
}
use flicker.Parallel.Schedule.Outcomes.{EndsWith, bodies, outcome_error, parallel_result-outcomes}
use flicker.Parallel.Schedule.Returns.{Settles, parallel_returns}
use flicker.Tests.Data.{order_context, start}

-- It reads the clock, and fails.
abbrev reading : World → World
reading w = record w { readings = 1 }

abbrev failing : Outcome (Unit {0})
failing = returned (err (plain (codes "disk full")))

abbrev crashing : Outcome (Unit {0})
crashing = panicked (codes "nil map") []

abbrev forks : List Fork
forks =
    record { name = codes "first"; body = λ wc. calls reading (λ w. ended failing) }
    ∷ record { name = codes "second"; body = λ wc. ended crashing }
    ∷ []

abbrev at_start : ParallelState
at_start = forked order_context forks start

abbrev second_left : ParallelState
second_left = leave (going (calls reading (λ w. ended failing)) ∷ []) crashing [] at_start

abbrev called : ParallelState
called = make_call [] reading (λ w. ended failing) (left (outcome_error crashing) ∷ []) second_left

abbrev both_left : ParallelState
both_left = leave [] failing (left (outcome_error crashing) ∷ []) called

both_left-reached : Turns at_start both_left
both_left-reached =
    goes_by at_start second_left both_left
      (leaves at_start (going (calls reading (λ w. ended failing)) ∷ []) [] crashing refl)
      (goes_by second_left called both_left
        (makes_call second_left [] (left (outcome_error crashing) ∷ []) reading (λ w. ended failing)
          refl)
        (goes_by called both_left both_left
          (leaves called [] (left (outcome_error crashing) ∷ []) failing refl) (stays both_left)))

parallel_result-outcomes_example :
    (os : List (Outcome (Unit {0}))) × EndsWith (bodies order_context forks) os
    × (parallel_result both_left ≡ join_errors (map outcome_error os))
parallel_result-outcomes_example =
    parallel_result-outcomes order_context forks start both_left both_left-reached refl

-- The first branch's error, though the second ended before.
both_left-result : parallel_result both_left ≡ some (plain (codes "disk full"))
unfolding join_errors
both_left-result = refl

parallel_returns_example : Settles at_start
parallel_returns_example = parallel_returns order_context forks start
