-- ===== src/System/Moves.antt =====
-- Each call of the store advances the rows of the workflows.
use flicker.Prelude.{
  ◌≡◌, refl, sym, ◌∙◌, subst, Bool, true, false, List, [], ◌∷◌, ◌++◌, Option, none, some, arith,
  Text, text_eq_iff, find?, find?-append, or_else, map_where, Bool-cases, inl, inr,
}
use flicker.Time.{Time}
use flicker.Records.{Status, is_suspended, is_pending}
use flicker.World.{WorkflowRow}
use flicker.Sqlite.Workflows.{has_id, promoted}
use flicker.Sqlite.Occ.{IdsDistinct}
use flicker.System.Advance.{
  is_final, Advance, Advance-moved, Progress, Progress-trans, updated_if, find?-map_where-updated,
  IdsDistinct-map_where-updated,
}

not_final_of_suspended : (s : Status) → is_suspended s ≡ true → is_final s ≡ false
not_final_of_suspended Status.suspended h = refl
not_final_of_suspended Status.unset h = refl
not_final_of_suspended Status.pending h = refl
not_final_of_suspended Status.running h = refl
not_final_of_suspended Status.completed h = absurd (ground (arith, h))
not_final_of_suspended Status.failed h = absurd (ground (arith, h))
not_final_of_suspended Status.cancelled h = absurd (ground (arith, h))

pub not_final_of_pending : (s : Status) → is_pending s ≡ true → is_final s ≡ false
not_final_of_pending Status.pending h = refl
not_final_of_pending Status.suspended h = refl
not_final_of_pending Status.unset h = refl
not_final_of_pending Status.running h = refl
not_final_of_pending Status.completed h = absurd (ground (arith, h))
not_final_of_pending Status.failed h = absurd (ground (arith, h))
not_final_of_pending Status.cancelled h = absurd (ground (arith, h))

-- The rows that `old` can have become, with distinct identifiers.
pub record Becomes (old rows : List WorkflowRow) : Type 0 where
  pub distinct : IdsDistinct rows
  pub progress : (j : Text) → Progress (find? (has_id j) old) (find? (has_id j) rows)

Progress-updated_if :
    (p : WorkflowRow → Bool) (f : WorkflowRow → WorkflowRow) (a b : Option WorkflowRow)
    → ((r : WorkflowRow) → b ≡ some r → p r ≡ true → Advance r (f r))
    → Progress a b
    → Progress a (updated_if p f b)
Progress-updated_if p f none b moves h = tt
Progress-updated_if p f (some r) none moves h = h
Progress-updated_if p f (some r) (some q) moves h = elim (Bool-cases (p q)) [
  | inl hit ↦ rw hit (Progress-trans (some r) (some q) (some (f q)) h (moves q refl hit))
  | inr miss ↦ rw miss h
]

module _ (old : List WorkflowRow) where
  -- An update that advances each row that it selects.
  pub Becomes-map_where :
      (p : WorkflowRow → Bool) (f : WorkflowRow → WorkflowRow)
      → ((r : WorkflowRow) → (f r).id ≡ r.id)
      → (rows : List WorkflowRow)
      → ((j : Text) (r : WorkflowRow)
          → find? (has_id j) rows ≡ some r
          → p r ≡ true
          → Advance r (f r))
      → Becomes old rows
      → Becomes old (map_where p f rows)
  Becomes-map_where p f keeps rows moves h = record {
    distinct = IdsDistinct-map_where-updated p f keeps rows h.distinct;
    progress = λ j.
        subst (Progress (find? (has_id j) old)) (sym (find?-map_where-updated p f keeps j rows)) (
          Progress-updated_if p f (find? (has_id j) old) (find? (has_id j) rows) (moves j)
            (h.progress j));
  }

  pub promoted-Becomes :
      (p : WorkflowRow → Bool)
      → ((r : WorkflowRow) → p r ≡ true → is_suspended r.status ≡ true)
      → (t : Time) (rows : List WorkflowRow) → Becomes old rows
      → Becomes old (map_where p (promoted t) rows)
  promoted-Becomes p only t rows h =
      Becomes-map_where p (promoted t) (λ r. refl) rows
        (λ j r found hit.
          Advance-moved r (promoted t r) refl (not_final_of_suspended r.status (only r hit)))
        h

  Progress-or_else : (a b c : Option WorkflowRow) → Progress a b → Progress a (or_else b c)
  Progress-or_else none b c h = tt
  Progress-or_else (some r) none c h = absurd h
  Progress-or_else (some r) (some q) c h = h

IdsDistinct-append :
    (row : WorkflowRow) (rows : List WorkflowRow)
    → find? (has_id row.id) rows ≡ none
    → IdsDistinct rows
    → IdsDistinct (rows ++ (row ∷ []))
unfolding find?
IdsDistinct-append row [] h d = (refl, tt)
IdsDistinct-append row (r ∷ rs) h d =
    let rest : find? (has_id row.id) rs ≡ none = ground (arith, h) in
    (
      find?-append (has_id r.id) rs (row ∷ [])
          ∙ ground (arith, h, d.0, text_eq_iff row.id r.id, text_eq_iff r.id row.id),
      IdsDistinct-append row rs rest d.1,
    )

pub Becomes-append :
    (old : List WorkflowRow) (row : WorkflowRow) (rows : List WorkflowRow)
    → find? (has_id row.id) rows ≡ none
    → Becomes old rows
    → Becomes old (rows ++ (row ∷ []))
Becomes-append old row rows fresh h = record {
  distinct = IdsDistinct-append row rows fresh h.distinct;
  progress = λ j.
      subst (Progress (find? (has_id j) old)) (sym (find?-append (has_id j) rows (row ∷ []))) (
        Progress-or_else old (find? (has_id j) old) (find? (has_id j) rows)
          (find? (has_id j) (row ∷ [])) (h.progress j));
}
