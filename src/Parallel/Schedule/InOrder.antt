-- ===== src/Parallel/Schedule/InOrder.antt =====
-- The schedule of `Parallel` in which one branch runs after another.
use mathlib.Core.List.{append_assoc}
use flicker.Prelude.{ℕ, ◌-◌, ◌≡◌, refl, ap, subst, List, [], ◌∷◌, ◌++◌, map, arith}
use flicker.World.{World}
use flicker.Context.{WorkflowContext, scope}
use flicker.Steps.{recovered, panic_to_error}
use flicker.Parallel.{error_of, run_branches, parallel, result_of, join_errors}
use flicker.Parallel.Schedule.{
  Goroutine, ended, calls, run_alone, Fork, branch_from, Slot, going, left, ParallelState, forked,
  make_call, leave, makes_call, leaves, Turns, stays, goes_by, slot_error, parallel_result,
}
use flicker.Parallel.Schedule.Outcomes.{going_count, Turns-counted}

pub Turns-trans : (s t u : ParallelState) → Turns s t → Turns t u → Turns s u
Turns-trans s t u (stays _) path = path
Turns-trans s t u (goes_by _ v _ step rest) path = goes_by s v u step (Turns-trans v t u rest path)

abbrev state_at : List Slot → ℕ → World → ParallelState
state_at slots n w = record { slots = slots; waiting = n; world = w }

-- One goroutine runs to its end.
run_slot :
    (before after : List Slot) (g : Goroutine) (n : ℕ) (w : World)
    → Turns (state_at (before ++ (going g ∷ after)) n w) (
        state_at
          (before ++ (left (error_of (recovered (run_alone g w).0)) ∷ after))
          (n - 1)
          (run_alone g w).1)
unfolding run_alone
run_slot before after (ended o) n w =
    let s = state_at (before ++ (going (ended o) ∷ after)) n w in
    goes_by s (leave before o after s) (leave before o after s) (leaves s before after o refl)
      (stays (leave before o after s))
run_slot before after (calls call next) n w =
    let s = state_at (before ++ (going (calls call next) ∷ after)) n w in
    goes_by s (make_call before call next after s) _ (makes_call s before after call next refl)
      (run_slot before after (next w) n (call w))

-- The slots after their goroutines have run in order, and the world.
abbrev run_slots : List Slot → World → List Slot × World
run_slots [] w = ([], w)
run_slots (going g ∷ ss) w =
    let (o, w₁) = run_alone g w in
    let (done, w₂) = run_slots ss w₁ in (left (error_of (recovered o)) ∷ done, w₂)
run_slots (left e ∷ ss) w = let (done, w₁) = run_slots ss w in (left e ∷ done, w₁)

Turns-same :
    (w w' : World) (a a' b b' : List Slot) (m n n' : ℕ)
    → a ≡ a'
    → b ≡ b'
    → n ≡ n'
    → Turns (state_at a m w) (state_at b n w')
    → Turns (state_at a' m w) (state_at b' n' w')
Turns-same w w' a a' b b' m n n' p q r path =
    subst (λ x. Turns (state_at x m w) (state_at b' n' w')) p
      (subst (λ x. Turns (state_at a m w) (state_at x n' w')) q
        (subst (λ x. Turns (state_at a m w) (state_at b x w')) r path))

shift : (before ss : List Slot) (s : Slot) → (before ++ (s ∷ [])) ++ ss ≡ before ++ (s ∷ ss)
shift before ss s = append_assoc before (s ∷ []) ss

run_rest :
    (before ss : List Slot) (n : ℕ) (w : World)
    → Turns
        (state_at (before ++ ss) n w)
        (state_at (before ++ (run_slots ss w).0) (n - going_count ss) (run_slots ss w).1)
run_rest before [] n w =
    Turns-same w w _ _ _ _ n n (n - 0) refl refl (omega arith) (stays (state_at (before ++ []) n w))
run_rest before (going g ∷ ss) n w =
    let (o, w₁) = run_alone g w in
    let e : Slot = left (error_of (recovered o)) in
    Turns-trans _ (state_at (before ++ (e ∷ ss)) (n - 1) w₁) _ (run_slot before ss g n w) (
      Turns-same w₁ (run_slots ss w₁).1 _ _ _ _ (n - 1) _ _ (shift before ss e)
        (shift before (run_slots ss w₁).0 e) (omega arith)
        (run_rest (before ++ (e ∷ [])) ss (n - 1) w₁))
run_rest before (left e ∷ ss) n w =
    Turns-same w (run_slots ss w).1 _ _ _ _ n _ _ (shift before ss (left e))
      (shift before (run_slots ss w).0 (left e)) refl (run_rest (before ++ (left e ∷ [])) ss n w)

run_slots-branches :
    (wc : WorkflowContext) (fs : List Fork) (w : World)
    → (
      map slot_error (run_slots (forked wc fs w).slots w).0,
      (run_slots (forked wc fs w).slots w).1,
    )
      ≡ run_branches wc (map branch_from fs) w
unfolding run_branches panic_to_error
run_slots-branches wc [] w = refl
run_slots-branches wc (f ∷ fs) w =
    let (o, w₁) = run_alone (f.body (scope wc f.name)) w in
    ap (λ p. (error_of (recovered o) ∷ p.0, p.1)) (run_slots-branches wc fs w₁)

-- The model's `parallel`, which runs the branches one after another, is one of the schedules: there are
-- turns from the start after which no goroutine is left, and what `Parallel` returns and the world
-- are those of `parallel`.
parallel_in_order :
    (wc : WorkflowContext) (fs : List Fork) (w : World)
    → (t : ParallelState) × Turns (forked wc fs w) t
      × (t.waiting ≡ 0)
      × ((result_of (parallel_result t), t.world) ≡ parallel wc (map branch_from fs) w)
unfolding parallel
parallel_in_order wc fs w =
    let s = forked wc fs w in
    (
      state_at (run_slots s.slots w).0 (s.waiting - going_count s.slots) (run_slots s.slots w).1,
      run_rest [] s.slots s.waiting w,
      omega (arith, Turns-counted wc fs w s (stays s)),
      ap (λ p. (result_of (join_errors p.0), p.1)) (run_slots-branches wc fs w),
    )
