-- ===== src/Parallel/Schedule/Returns.antt =====
-- Every schedule of the goroutines of `Parallel` comes to an end.
use mathlib.Core.WellFounded.{Acc}
use flicker.Prelude.{
  ℕ, zero, suc, ◌≡◌, refl, ap, sym, ◌∙◌, subst, List, [], ◌∷◌, ◌++◌, arith, Option,
}
use flicker.World.{World}
use flicker.Context.{WorkflowContext}
use flicker.Errors.{Error}
use flicker.Steps.{Outcome, recovered}
use flicker.Parallel.{error_of}
use flicker.Parallel.Schedule.{
  Goroutine, ended, calls, Fork, Slot, going, left, ParallelState, forked, Turn, makes_call, leaves,
  Turns, stays, goes_by, leave, make_call,
}
use flicker.Parallel.Schedule.Outcomes.{going_count, Turns-counted}
use flicker.Parallel.Schedule.InOrder.{Turns-trans}

-- What one turn does to one slot.
data Advances : Slot → Slot → Type 0 where
  calls_on :
      (call : World → World) (next : World → Goroutine) (w : World)
      → Advances (going (calls call next)) (going (next w))
  leaves_with :
      (o : Outcome (Unit {0})) → Advances (going (ended o)) (left (error_of (recovered o)))

-- What it does to the slots: one of them advances.
data Moves : List Slot → List Slot → Type 0 where
  here : (s s' : Slot) (ss : List Slot) → Advances s s' → Moves (s ∷ ss) (s' ∷ ss)
  there : (s : Slot) (ss ss' : List Slot) → Moves ss ss' → Moves (s ∷ ss) (s ∷ ss')

Moves-middle :
    (before after : List Slot) (s s' : Slot)
    → Advances s s'
    → Moves (before ++ (s ∷ after)) (before ++ (s' ∷ after))
Moves-middle [] after s s' h = here s s' after h
Moves-middle (b ∷ before) after s s' h =
    there b (before ++ (s ∷ after)) (before ++ (s' ∷ after)) (Moves-middle before after s s' h)

Turn-Moves : (s t : ParallelState) → Turn s t → Moves s.slots t.slots
Turn-Moves s t (makes_call _ before after call next e) =
    subst (λ x. Moves x (before ++ (going (next s.world) ∷ after))) (sym e)
      (Moves-middle before after (going (calls call next)) (going (next s.world))
        (calls_on call next s.world))
Turn-Moves s t (leaves _ before after o e) =
    subst (λ x. Moves x (before ++ (left (error_of (recovered o)) ∷ after))) (sym e)
      (Moves-middle before after (going (ended o)) (left (error_of (recovered o))) (leaves_with o))

abbrev Halts : List Slot → Type 0
Halts ss = Acc (λ a b. Moves b a) ss

Moves-cons :
    (s : Slot) (ss t : List Slot)
    → ((s' : Slot) → Advances s s' → Halts (s' ∷ ss))
    → ((rest : List Slot) → Moves ss rest → Halts (s ∷ rest))
    → Moves (s ∷ ss) t
    → Halts t
Moves-cons s ss _ first rest (here _ s' _ a) = first s' a
Moves-cons s ss _ first rest (there _ _ ss' m) = rest ss' m

left_over :
    (o : Outcome (Unit {0})) (s' : Slot)
    → Advances (going (ended o)) s'
    → left (error_of (recovered o)) ≡ s'
left_over o _ (leaves_with _) = refl

called :
    (call : World → World) (next : World → Goroutine) (s' : Slot)
    → Advances (going (calls call next)) s'
    → (w : World) × (going (next w) ≡ s')
called call next _ (calls_on _ _ w) = (w, refl)

left-Halts : (e : Option Error) (ss : List Slot) → Halts ss → Halts (left e ∷ ss)
left-Halts e ss (Acc.intro _ f) =
    Acc.intro (left e ∷ ss)
      (λ t. Moves-cons (left e) ss t (λ s' h. elim h [ ]) (λ rest m. left-Halts e rest (f rest m)))

going-Halts : (g : Goroutine) (ss : List Slot) → Halts ss → Halts (going g ∷ ss)
going-Halts (ended o) ss (Acc.intro _ f) = Acc.intro (going (ended o) ∷ ss) (λ t.
    Moves-cons (going (ended o)) ss t
      (λ s' a.
        subst (λ x. Halts (x ∷ ss)) (left_over o s' a)
          (left-Halts (error_of (recovered o)) ss (Acc.intro ss f)))
      (λ rest m. going-Halts (ended o) rest (f rest m)))
going-Halts (calls call next) ss (Acc.intro _ f) = Acc.intro (going (calls call next) ∷ ss) (λ t.
    Moves-cons (going (calls call next)) ss t
      (λ s' a.
        let (w, e) = called call next s' a in
        subst (λ x. Halts (x ∷ ss)) e (going-Halts (next w) ss (Acc.intro ss f)))
      (λ rest m. going-Halts (calls call next) rest (f rest m)))

slots-Halt : (ss : List Slot) → Halts ss
slots-Halt [] = Acc.intro [] (λ t m. elim m [ ])
slots-Halt (going g ∷ ss) = going-Halts g ss (slots-Halt ss)
slots-Halt (left e ∷ ss) = left-Halts e ss (slots-Halt ss)

-- `Parallel` returns whatever the scheduler does next: either `wg.Wait` returns, or some goroutine can go
-- on, and whichever does, the same holds again, for finitely many turns.
pub data Settles : ParallelState → Type 0 where
  returns : (s : ParallelState) → s.waiting ≡ 0 → Settles s
  goes_on :
      (s t : ParallelState) → Turn s t → ((u : ParallelState) → Turn s u → Settles u) → Settles s

first_going :
    (ss : List Slot) (n : ℕ)
    → going_count ss ≡ suc n
    → (before : List Slot) × (g : Goroutine) × (after : List Slot) × (ss
        ≡ before ++ (going g ∷ after))
first_going [] n h = absurd (omega (arith, h))
first_going (going g ∷ ss) n h = ([], g, ss, refl)
first_going (left e ∷ ss) n h =
    let (before, g, after, same) = first_going ss n h in
    (left e ∷ before, g, after, ap (◌∷◌ (left e)) same)

go_on :
    (s : ParallelState) (before after : List Slot) (g : Goroutine)
    → s.slots ≡ before ++ (going g ∷ after)
    → (t : ParallelState) × Turn s t
go_on s before after (ended o) e = (leave before o after s, leaves s before after o e)
go_on s before after (calls call next) e =
    (make_call before call next after s, makes_call s before after call next e)

module _ (wc : WorkflowContext) (fs : List Fork) (w : World) where
  Settles-from :
      (n : ℕ) (ss : List Slot) (s : ParallelState)
      → Halts ss
      → s.slots ≡ ss
      → s.waiting ≡ n
      → Turns (forked wc fs w) s
      → Settles s
  Settles-from zero ss s h e count path = returns s count
  Settles-from (suc n) ss s (Acc.intro _ f) e count path =
      let (before, g, after, same) =
        first_going s.slots n (sym (Turns-counted wc fs w s path) ∙ count) in
      let (t, step) = go_on s before after g same in
      goes_on s t step (λ u m.
        Settles-from u.waiting u.slots u
          (f u.slots (subst (λ x. Moves x u.slots) e (Turn-Moves s u m))) refl refl
          (Turns-trans (forked wc fs w) s u path (goes_by s u u m (stays u))))

-- Where each branch makes finitely many calls, `Parallel` returns under every schedule of its goroutines,
-- fair or not: no schedule is without an end, and none comes to a point where `Parallel` waits and no
-- goroutine can go on.
pub parallel_returns :
    (wc : WorkflowContext) (fs : List Fork) (w : World) → Settles (forked wc fs w)
parallel_returns wc fs w =
    let s = forked wc fs w in
    Settles-from wc fs w s.waiting s.slots s (slots-Halt s.slots) refl refl (stays s)
