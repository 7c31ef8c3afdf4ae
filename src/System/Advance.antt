-- ===== src/System/Advance.antt =====
-- How the row of a workflow may change: versions only grow, the status changes with the version, and a
-- row of a final status keeps its outcome.
use flicker.Prelude.{
  ◌+◌, ◌≤◌, ◌≡◌, refl, ap, ◌∙◌, Bool, true, false, List, [], ◌∷◌, Option, none, some, arith, Text,
  text_eq, find?, map_where, if◌then◌else◌,
}
use flicker.Records.{Status}
use flicker.World.{WorkflowRow}
use flicker.Sqlite.Workflows.{has_id}
use flicker.Sqlite.Occ.{IdsDistinct}

abbrev pub is_final : Status → Bool
is_final Status.completed = true
is_final Status.failed = true
is_final Status.cancelled = true
is_final _ = false

-- The columns of an outcome.
abbrev pub SameOutcome : WorkflowRow → WorkflowRow → Type 0
SameOutcome r q =
    (q.status ≡ r.status)
    × (q.result ≡ r.result)
    × (q.error ≡ r.error)
    × (q.occ_version ≡ r.occ_version)

pub record Advance (r q : WorkflowRow) : Type 0 where
  pub later : r.occ_version ≤ q.occ_version
  pub same_status : r.occ_version ≡ q.occ_version → q.status ≡ r.status
  pub final : is_final r.status ≡ true → SameOutcome r q

pub Advance-refl : (r : WorkflowRow) → Advance r r
Advance-refl r = record {
  later = omega arith;
  same_status = λ e. refl;
  final = λ e. (refl, refl, refl, refl);
}

pub Advance-trans : (r q p : WorkflowRow) → Advance r q → Advance q p → Advance r p
Advance-trans r q p h k = record {
  later = omega (arith, h.later, k.later);
  same_status = λ e.
      k.same_status (omega (arith, h.later, k.later, e))
      ∙ h.same_status (omega (arith, h.later, k.later, e));
  final = λ e.
      let (a₁, a₂, a₃, a₄) = h.final e in
      let (b₁, b₂, b₃, b₄) = k.final (ap is_final a₁ ∙ e) in (b₁ ∙ a₁, b₂ ∙ a₂, b₃ ∙ a₃, b₄ ∙ a₄);
}

-- A row with a higher version, from a status that is not final.
pub Advance-moved :
    (r q : WorkflowRow)
    → q.occ_version ≡ r.occ_version + 1
    → is_final r.status ≡ false
    → Advance r q
Advance-moved r q up open' = record {
  later = omega (arith, up);
  same_status = λ e. absurd (omega (arith, up, e));
  final = λ e. absurd (ground (arith, open', e));
}

-- Rows may appear, and do not vanish.
abbrev pub Progress : Option WorkflowRow → Option WorkflowRow → Type 0
Progress none o = Unit
Progress (some r) none = ⊥
Progress (some r) (some q) = Advance r q

pub Progress-trans : (a b c : Option WorkflowRow) → Progress a b → Progress b c → Progress a c
Progress-trans none b c h k = tt
Progress-trans (some r) none c h k = absurd h
Progress-trans (some r) (some q) none h k = absurd k
Progress-trans (some r) (some q) (some p) h k = Advance-trans r q p h k

pub Progress-refl : (o : Option WorkflowRow) → Progress o o
Progress-refl none = tt
Progress-refl (some r) = Advance-refl r

-- What an update makes of one row.
abbrev pub updated_if :
    (WorkflowRow → Bool) → (WorkflowRow → WorkflowRow) → Option WorkflowRow → Option WorkflowRow
updated_if p f none = none
updated_if p f (some r) = some (if p r then f r else r)

module _ (p : WorkflowRow → Bool) (f : WorkflowRow → WorkflowRow)
    (keeps : (r : WorkflowRow) → (f r).id ≡ r.id) where
  pub find?-map_where-updated :
      (j : Text) (rows : List WorkflowRow)
      → find? (has_id j) (map_where p f rows) ≡ updated_if p f (find? (has_id j) rows)
  unfolding find? map_where
  find?-map_where-updated j [] = refl
  find?-map_where-updated j (r ∷ rs) =
      ground (arith, find?-map_where-updated j rs, ap (λ i. text_eq i j) (keeps r))

  updated_if-none : (o : Option WorkflowRow) → o ≡ none → updated_if p f o ≡ none
  updated_if-none none h = refl
  updated_if-none (some r) h = absurd (ground (arith, h))

  pub IdsDistinct-map_where-updated :
      (rows : List WorkflowRow) → IdsDistinct rows → IdsDistinct (map_where p f rows)
  unfolding map_where
  IdsDistinct-map_where-updated [] d = tt
  IdsDistinct-map_where-updated (r ∷ rs) d =
      let gone = find?-map_where-updated r.id rs ∙ updated_if-none (find? (has_id r.id) rs) d.0 in
      ground (
        arith,
        gone,
        ap (λ i. find? (has_id i) (map_where p f rs)) (keeps r),
        IdsDistinct-map_where-updated rs d.1,
      )
