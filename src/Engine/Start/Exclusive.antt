-- ===== src/Engine/Start/Exclusive.antt =====
-- The workers of `Engine.Start` never execute one workflow twice at the same time.
use flicker.Prelude.{
  suc, ◌+◌, ◌≡◌, refl, ap, sym, ◌∙◌, subst, false, ◌||◌, List, [], ◌∷◌, ◌++◌, arith, Text, text_eq,
  text_eq_iff, length, Bool-cases, inl, inr,
}
use flicker.Records.{WorkflowRecord}
use flicker.Leases.{contains}
use flicker.Leases.Refines.{contains-remove}
use flicker.Engine.Start.{
  EngineState, dispatch, skip_run, begin_run, end_run, Transition, signals, ticks, receives, stops,
  drains, begins, refuses, ends, Reachable, starts, goes,
}

-- No identifier stands in it twice.
abbrev pub Distinct : List Text → Type 0
Distinct [] = Unit
Distinct (x ∷ xs) = (contains x xs ≡ false) × Distinct xs

pub record IsExclusive (s : EngineState) : Type 0 where
  pub distinct : Distinct s.executing
  pub leased : (x : Text) → contains x s.leases ≡ contains x s.executing
  pub counted : s.in_flight ≡ length s.submitted + length s.executing

contains-middle :
    (x id : Text) (before after : List Text)
    → contains x (before ++ (id ∷ after)) ≡ (text_eq id x || contains x (before ++ after))
unfolding contains
contains-middle x id [] after = refl
contains-middle x id (b ∷ before) after = ground (arith, contains-middle x id before after)

-- An identifier taken out of a list of distinct ones is in it no longer, and the others stay.
Distinct-middle :
    (id : Text) (before after : List Text)
    → Distinct (before ++ (id ∷ after))
    → Distinct (before ++ after) × (contains id (before ++ after) ≡ false)
unfolding contains
Distinct-middle id [] after d = (d.1, d.0)
Distinct-middle id (b ∷ before) after d =
    let (rest, gone) = Distinct-middle id before after d.1 in
    let apart = sym (contains-middle b id before after) ∙ d.0 in
    ((ground (arith, apart), rest), ground (arith, apart, gone, text_eq_iff b id, text_eq_iff id b))

length-middle {ℓ} :
    {A : Type ℓ} (a : A) (before after : List A)
    → length (before ++ (a ∷ after)) ≡ suc (length (before ++ after))
length-middle a [] after = refl
length-middle a (b ∷ before) after = omega (arith, length-middle a before after)

length-snoc {ℓ} : {A : Type ℓ} (a : A) (xs : List A) → length (xs ++ (a ∷ [])) ≡ suc (length xs)
length-snoc a [] = refl
length-snoc a (x ∷ xs) = omega (arith, length-snoc a xs)

dispatch-IsExclusive :
    (rs : List WorkflowRecord) (s : EngineState) → IsExclusive s → IsExclusive (dispatch rs s)
unfolding dispatch
dispatch-IsExclusive [] s h = h
dispatch-IsExclusive (r ∷ rs) s h = dispatch-IsExclusive rs _ (record {
  distinct = h.distinct;
  leased = h.leased;
  counted = omega (arith, h.counted, length-snoc r s.submitted);
})

skip_run-IsExclusive :
    (r : WorkflowRecord) (before after : List WorkflowRecord) (s : EngineState)
    → s.submitted ≡ before ++ (r ∷ after)
    → IsExclusive s
    → IsExclusive (skip_run (before ++ after) s)
skip_run-IsExclusive r before after s e h = record {
  distinct = h.distinct;
  leased = h.leased;
  counted = omega (arith, h.counted, ap length e, length-middle r before after);
}

begin_run-IsExclusive :
    (r : WorkflowRecord) (before after : List WorkflowRecord) (s : EngineState)
    → s.submitted ≡ before ++ (r ∷ after)
    → IsExclusive s
    → IsExclusive (begin_run r (before ++ after) s)
unfolding contains
begin_run-IsExclusive r before after s e h = elim (Bool-cases (contains r.id s.leases)) [
  | inl held ↦ rw held (skip_run-IsExclusive r before after s e h)
  | inr free ↦ rw free (record {
    distinct = (sym (h.leased r.id) ∙ free, h.distinct);
    leased = λ x. ap (λ b. text_eq r.id x || b) (h.leased x);
    counted = omega (arith, h.counted, ap length e, length-middle r before after);
  })
]

end_run-IsExclusive :
    (id : Text) (before after : List Text) (s : EngineState)
    → s.executing ≡ before ++ (id ∷ after)
    → IsExclusive s
    → IsExclusive (end_run id (before ++ after) s)
end_run-IsExclusive id before after s e h =
    let (rest, gone) = Distinct-middle id before after (subst Distinct e h.distinct) in
    record {
      distinct = rest;
      leased = λ x. ground (
        arith,
        contains-remove id x s.leases,
        h.leased x,
        ap (contains x) e,
        contains-middle x id before after,
        text_eq_iff id x,
        gone,
      );
      counted = omega (arith, h.counted, ap length e, length-middle id before after);
    }

Transition-IsExclusive : (s s' : EngineState) → Transition s s' → IsExclusive s → IsExclusive s'
Transition-IsExclusive s s' (signals _) h = record {
  distinct = h.distinct;
  leased = h.leased;
  counted = h.counted;
}
Transition-IsExclusive s s' (ticks _ rs open') h = dispatch-IsExclusive rs s h
Transition-IsExclusive s s' (receives _ rs open' full) h =
    dispatch-IsExclusive rs _
      (record { distinct = h.distinct; leased = h.leased; counted = h.counted })
Transition-IsExclusive s s' (stops _) h = record {
  distinct = h.distinct;
  leased = h.leased;
  counted = h.counted;
}
Transition-IsExclusive s s' (drains _ over) h = record {
  distinct = h.distinct;
  leased = h.leased;
  counted = h.counted;
}
Transition-IsExclusive s s' (begins _ before after r e) h =
    begin_run-IsExclusive r before after s e h
Transition-IsExclusive s s' (refuses _ before after r e) h =
    skip_run-IsExclusive r before after s e h
Transition-IsExclusive s s' (ends _ before after id e) h = end_run-IsExclusive id before after s e h

pub Reachable-IsExclusive : (s : EngineState) → Reachable s → IsExclusive s
unfolding contains
Reachable-IsExclusive s starts = record { distinct = tt; leased = λ x. refl; counted = refl }
Reachable-IsExclusive s (goes s₀ _ r t) = Transition-IsExclusive s₀ s t (Reachable-IsExclusive s₀ r)

-- No workflow is executed twice at the same time. However the promoters, the scheduler and the workers
-- of `Start` interleave and however often a workflow is dispatched, the workflows in execution are
-- distinct, the leases are theirs, and the wait group counts them and the submitted records, where the
-- release of the lease and the `Done` of an execution are one transition.
pub executed_exclusively :
    (s : EngineState)
    → Reachable s
    → Distinct s.executing
      × ((x : Text) → contains x s.leases ≡ contains x s.executing)
      × (s.in_flight ≡ length s.submitted + length s.executing)
executed_exclusively s r = let h = Reachable-IsExclusive s r in (h.distinct, h.leased, h.counted)
