-- ===== src/Parallel/Schedule/Outcomes.antt =====
-- What `Parallel` returns under any schedule of its goroutines.
use flicker.Prelude.{
  ℕ, suc, ◌≡◌, refl, ap, sym, ◌∙◌, subst, List, [], ◌∷◌, ◌++◌, map, Option, arith, length,
}
use flicker.World.{World}
use flicker.Errors.{Error}
use flicker.Context.{WorkflowContext, scope}
use flicker.Steps.{Outcome, recovered}
use flicker.Parallel.{error_of, join_errors}
use flicker.Parallel.Schedule.{
  Goroutine, ended, calls, Fork, Slot, going, left, ParallelState, forked, Turn, makes_call, leaves,
  Turns, stays, goes_by, slot_error, parallel_result,
}

-- A goroutine can come from one point to another, whatever its calls answer.
pub data Follows (g : Goroutine) : Goroutine → Type 0 where
  follows_self : Follows g g
  follows_call :
      (call : World → World) (next : World → Goroutine) (w : World)
      → Follows g (calls call next)
      → Follows g (next w)

-- What a slot says about the goroutine that started in it.
abbrev Tracked : Goroutine → Slot → Type 0
Tracked g (going h) = Follows g h
Tracked g (left e) = (o : Outcome (Unit {0})) × Follows g (ended o) × (e ≡ error_of (recovered o))

abbrev AllTracked : List Goroutine → List Slot → Type 0
AllTracked [] [] = Unit
AllTracked [] (s ∷ ss) = ⊥
AllTracked (g ∷ gs) [] = ⊥
AllTracked (g ∷ gs) (s ∷ ss) = Tracked g s × AllTracked gs ss

abbrev pub going_count : List Slot → ℕ
going_count [] = 0
going_count (going g ∷ ss) = suc (going_count ss)
going_count (left e ∷ ss) = going_count ss

AllTracked-replace :
    (gs : List Goroutine) (before after : List Slot) (s s' : Slot)
    → ((g : Goroutine) → Tracked g s → Tracked g s')
    → AllTracked gs (before ++ (s ∷ after))
    → AllTracked gs (before ++ (s' ∷ after))
AllTracked-replace [] [] after s s' f h = h
AllTracked-replace (g ∷ gs) [] after s s' f h = (f g h.0, h.1)
AllTracked-replace [] (b ∷ before) after s s' f h = h
AllTracked-replace (g ∷ gs) (b ∷ before) after s s' f h =
    (h.0, AllTracked-replace gs before after s s' f h.1)

going_count-same :
    (before after : List Slot) (g h : Goroutine)
    → going_count (before ++ (going g ∷ after)) ≡ going_count (before ++ (going h ∷ after))
going_count-same [] after g h = refl
going_count-same (going b ∷ before) after g h = ap suc (going_count-same before after g h)
going_count-same (left e ∷ before) after g h = going_count-same before after g h

going_count-left :
    (before after : List Slot) (g : Goroutine) (e : Option Error)
    → going_count (before ++ (going g ∷ after)) ≡ suc (going_count (before ++ (left e ∷ after)))
going_count-left [] after g e = refl
going_count-left (going b ∷ before) after g e = ap suc (going_count-left before after g e)
going_count-left (left e' ∷ before) after g e = going_count-left before after g e

record IsTracked (gs : List Goroutine) (s : ParallelState) : Type 0 where
  tracked : AllTracked gs s.slots
  counted : s.waiting ≡ going_count s.slots

Turn-IsTracked :
    (gs : List Goroutine) (s t : ParallelState) → Turn s t → IsTracked gs s → IsTracked gs t
Turn-IsTracked gs s t (makes_call _ before after call next e) h = record {
  tracked =
      AllTracked-replace gs before after (going (calls call next)) (going (next s.world))
        (λ g. follows_call call next s.world) (subst (AllTracked gs) e h.tracked);
  counted =
      h.counted ∙ ap going_count e ∙ going_count-same before after (calls call next) (next s.world);
}
Turn-IsTracked gs s t (leaves _ before after o e) h = record {
  tracked =
      AllTracked-replace gs before after (going (ended o)) (left (error_of (recovered o)))
        (λ g k. (o, k, refl)) (subst (AllTracked gs) e h.tracked);
  counted = omega (
    arith,
    h.counted,
    ap going_count e,
    going_count-left before after (ended o) (error_of (recovered o)),
  );
}

Turns-IsTracked :
    (gs : List Goroutine) (s t : ParallelState) → Turns s t → IsTracked gs s → IsTracked gs t
Turns-IsTracked gs s t (stays _) h = h
Turns-IsTracked gs s t (goes_by _ u _ step rest) h =
    Turns-IsTracked gs u t rest (Turn-IsTracked gs s u step h)

abbrev pub bodies : WorkflowContext → List Fork → List Goroutine
bodies wc [] = []
bodies wc (f ∷ fs) = f.body (scope wc f.name) ∷ bodies wc fs

forked_tracked :
    (wc : WorkflowContext) (fs : List Fork) (w : World)
    → AllTracked (bodies wc fs) (forked wc fs w).slots
forked_tracked wc [] w = tt
forked_tracked wc (f ∷ fs) w = (follows_self, forked_tracked wc fs w)

forked_counted :
    (wc : WorkflowContext) (fs : List Fork) (w : World)
    → length fs ≡ going_count (forked wc fs w).slots
forked_counted wc [] w = refl
forked_counted wc (f ∷ fs) w = ap suc (forked_counted wc fs w)

pub Turns-counted :
    (wc : WorkflowContext) (fs : List Fork) (w : World) (s : ParallelState)
    → Turns (forked wc fs w) s
    → s.waiting ≡ going_count s.slots
Turns-counted wc fs w s path =
    (Turns-IsTracked (bodies wc fs) (forked wc fs w) s path
      (record { tracked = forked_tracked wc fs w; counted = forked_counted wc fs w })).counted

-- One outcome per goroutine, each one that its goroutine can end with.
abbrev pub EndsWith : List Goroutine → List (Outcome (Unit {0})) → Type 0
EndsWith [] [] = Unit
EndsWith [] (o ∷ os) = ⊥
EndsWith (g ∷ gs) [] = ⊥
EndsWith (g ∷ gs) (o ∷ os) = Follows g (ended o) × EndsWith gs os

abbrev pub outcome_error : Outcome (Unit {0}) → Option Error
outcome_error o = error_of (recovered o)

all_left :
    (gs : List Goroutine) (ss : List Slot)
    → AllTracked gs ss
    → going_count ss ≡ 0
    → (os : List (Outcome (Unit {0}))) × EndsWith gs os × (map slot_error ss ≡ map outcome_error os)
all_left [] [] h k = ([], tt, refl)
all_left [] (s ∷ ss) h k = absurd h
all_left (g ∷ gs) [] h k = absurd h
all_left (g ∷ gs) (going x ∷ ss) h k = absurd (omega (arith, k))
all_left (g ∷ gs) (left e ∷ ss) ((o, ends, same), h) k =
    let (os, each, rest) = all_left gs ss h k in (o ∷ os, (ends, each), ground (arith, same, rest))

-- Under every schedule of its goroutines, `Parallel` returns only when every branch has ended, and then
-- what it makes of their outcomes, panics included, in the order of its arguments and not in the order
-- in which they ended.
pub parallel_result-outcomes :
    (wc : WorkflowContext) (fs : List Fork) (w : World) (s : ParallelState)
    → Turns (forked wc fs w) s
    → s.waiting ≡ 0
    → (os : List (Outcome (Unit {0}))) × EndsWith (bodies wc fs) os
      × (parallel_result s ≡ join_errors (map outcome_error os))
parallel_result-outcomes wc fs w s path over =
    let h : IsTracked (bodies wc fs) s =
      Turns-IsTracked (bodies wc fs) (forked wc fs w) s path
        (record { tracked = forked_tracked wc fs w; counted = forked_counted wc fs w }) in
    let (os, each, same) = all_left (bodies wc fs) s.slots h.tracked (sym h.counted ∙ over) in
    (os, each, ap join_errors same)
