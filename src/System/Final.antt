-- ===== src/System/Final.antt =====
-- A workflow that has ended stays as it ended, in every interleaving.
use flicker.Prelude.{
  ℕ, ◌≤◌, ◌≡◌, refl, sym, ap, ◌∙◌, subst, true, false, List, [], ◌∷◌, ◌++◌, some, arith, Text,
  text_eq_iff, text_eq_refl, find?, All, ◌⊎◌, Option-cases, inl, inr,
}
use flicker.Time.{Time}
use flicker.Errors.{Error, Result, ok, err}
use flicker.Records.{WorkflowRecord, is_pending}
use flicker.World.{WorkflowRow, World}
use flicker.Sqlite.Scan.{scan_workflow, scan_all}
use flicker.Sqlite.Workflows.{has_id, is_schedulable, select_schedulable, list_schedulable}
use flicker.Sqlite.Rows.{All-take, All-order_by, All-filter_and, All-map}
use flicker.Sqlite.Occ.{IdsDistinct, workflow_of}
use flicker.System.{
  System, Change, submits, signals, sends, promotes, times_out, polls, resolves, works, Reach, here,
  next, Starts, starts,
}
use flicker.System.Advance.{is_final, SameOutcome, Advance, Progress, Progress-refl, Progress-trans}
use flicker.System.Moves.{Becomes, not_final_of_pending}
use flicker.System.Calls.{
  create-Advanced, set_signal-Advanced, promote_suspended-Advanced, resume_subscription-Advanced,
  time_out_subscriptions-Advanced, resolve_outcome-Advanced,
}

-- What a runner knows of the workflow of its record: it stands in the table at the record's version or
-- a later one, and at that very version it has not ended.
abbrev pub Known : List WorkflowRow → WorkflowRecord → Type 0
Known rows r =
    (q : WorkflowRow) × (find? (has_id r.id) rows ≡ some q)
    × (r.occ_version ≤ q.occ_version)
    × (q.occ_version ≡ r.occ_version → is_final q.status ≡ false)

-- A listed row is the one of its identifier, and is pending.
abbrev Listed : List WorkflowRow → WorkflowRow → Type 0
Listed rows r = (find? (has_id r.id) rows ≡ some r) × (is_pending r.status ≡ true)

found_in_own_row :
    (rows : List WorkflowRow) → IdsDistinct rows → All (λ r. find? (has_id r.id) rows ≡ some r) rows
unfolding find?
found_in_own_row [] d = tt
found_in_own_row (x ∷ xs) d = (
  ground (arith, text_eq_refl x.id),
  All-map (λ r. find? (has_id r.id) xs ≡ some r) (λ r. find? (has_id r.id) (x ∷ xs) ≡ some r)
      (λ r h. ground (arith, h, d.0, text_eq_iff x.id r.id)) xs (found_in_own_row xs d.1),
)

select_schedulable-Listed :
    (limit : ℕ) (t : Time) (rows : List WorkflowRow)
    → IdsDistinct rows
    → All (Listed rows) (select_schedulable limit t rows)
unfolding select_schedulable
select_schedulable-Listed limit t rows d = All-take (Listed rows) limit _ (
    All-order_by (Listed rows) (λ r. r.created_at) _
      (All-map _ (Listed rows) (λ r h. (h.0, ground (arith, h.1))) _
        (All-filter_and (λ r. find? (has_id r.id) rows ≡ some r) (is_schedulable t) rows
          (found_in_own_row rows d))))

scan_workflow-columns :
    (r : WorkflowRow) (x : WorkflowRecord)
    → scan_workflow r ≡ ok x
    → (x.id ≡ r.id) × (x.occ_version ≡ r.occ_version)
unfolding scan_workflow
scan_workflow-columns r x h = ground arith

Result-cases {ℓ} :
    {A : Type ℓ} (r : Result A) → ((e : Error) × (r ≡ err e)) ⊎ ((a : A) × (r ≡ ok a))
Result-cases (err e) = inl (e, refl)
Result-cases (ok a) = inr (a, refl)

scan_all-eq-ok :
    (r : WorkflowRow) (rs : List WorkflowRow) (xs : List WorkflowRecord)
    → scan_all scan_workflow (r ∷ rs) ≡ ok xs
    → (y : WorkflowRecord) × (ys : List WorkflowRecord) × (scan_workflow r ≡ ok y)
      × (scan_all scan_workflow rs ≡ ok ys)
      × (y ∷ ys ≡ xs)
unfolding scan_all
scan_all-eq-ok r rs xs h = elim (Result-cases (scan_workflow r)) [
  | inl (e, bad) ↦ absurd (ground (arith, h, bad))
  | inr (y, good) ↦ elim (Result-cases (scan_all scan_workflow rs)) [
    | inl (e, bad) ↦ absurd (ground (arith, h, good, bad))
    | inr (ys, rest) ↦ (y, ys, good, rest, ground (arith, h, good, rest))
  ]
]

scanned-Known :
    (rows listed : List WorkflowRow) (xs : List WorkflowRecord)
    → All (Listed rows) listed
    → scan_all scan_workflow listed ≡ ok xs
    → All (Known rows) xs
unfolding scan_all
scanned-Known rows [] [] h e = tt
scanned-Known rows [] (x ∷ xs) h e = absurd (ground (arith, e))
scanned-Known rows (r ∷ rs) xs h e =
    let (y, ys, good, rest, same) = scan_all-eq-ok r rs xs e in
    let (same_id, same_version) = scan_workflow-columns r y good in
    let known : Known rows y = (
      r,
      ap (λ i. find? (has_id i) rows) same_id ∙ h.0.0,
      omega (arith, same_version),
      λ v. not_final_of_pending r.status h.0.1,
    ) in
    subst (All (Known rows)) same (known, scanned-Known rows rs ys h.1 rest)

list_schedulable-eq-ok :
    (limit : ℕ) (w v : World) (rs : List WorkflowRecord)
    → list_schedulable limit w ≡ (ok rs, v)
    → (v.tables.workflows ≡ w.tables.workflows)
      × (scan_all scan_workflow (select_schedulable limit (w.clock w.readings) w.tables.workflows)
          ≡ ok rs)
unfolding list_schedulable
list_schedulable-eq-ok limit w v rs h = ground arith

abbrev pub rows_of : System → List WorkflowRow
rows_of s = s.world.tables.workflows

-- The identifiers are distinct, and the runners know their workflows.
pub record IsOrdered (s : System) : Type 0 where
  pub distinct : IdsDistinct (rows_of s)
  pub known : All (Known (rows_of s)) s.handed

-- What was known before rows advance is known after.
Known-Becomes :
    (old rows : List WorkflowRow)
    → Becomes old rows
    → (r : WorkflowRecord) → Known old r
    → Known rows r
Known-Becomes old rows h r (q, found, below, open') =
    let step = subst (λ o. Progress o (find? (has_id r.id) rows)) found (h.progress r.id) in
    elim (Option-cases (find? (has_id r.id) rows)) [
      | inl gone ↦ absurd (subst (Progress (some q)) gone step)
      | inr (p, there) ↦
          let further : Advance q p = subst (Progress (some q)) there step in
          (
            p,
            there,
            omega (arith, below, further.later),
            λ e.
                ap is_final (further.same_status (omega (arith, e, below, further.later)))
                ∙ open' (omega (arith, e, below, further.later)),
          )
    ]

Known-append :
    (rows : List WorkflowRow) (xs ys : List WorkflowRecord)
    → All (Known rows) xs
    → All (Known rows) ys
    → All (Known rows) (xs ++ ys)
Known-append rows [] ys h k = k
Known-append rows (x ∷ xs) ys h k = (h.0, Known-append rows xs ys h.1 k)

Known-middle :
    (rows : List WorkflowRow) (before after : List WorkflowRecord) (r : WorkflowRecord)
    → All (Known rows) (before ++ (r ∷ after))
    → Known rows r
Known-middle rows [] after r h = h.0
Known-middle rows (b ∷ before) after r h = Known-middle rows before after r h.1

Becomes_refl : (rows : List WorkflowRow) → IdsDistinct rows → Becomes rows rows
Becomes_refl rows d = record { distinct = d; progress = λ j. Progress-refl (find? (has_id j) rows) }

some_injective : (a b : WorkflowRow) → some a ≡ some b → a ≡ b
some_injective a b h = ground (arith, h)

-- Every transition advances the rows.
Change-Becomes : (s t : System) → Change s t → IsOrdered s → Becomes (rows_of s) (rows_of t)
Change-Becomes s t (submits _ r) h =
    create-Advanced (rows_of s) r s.world (Becomes_refl (rows_of s) h.distinct)
Change-Becomes s t (signals _ id signal) h =
    set_signal-Advanced (rows_of s) id signal s.world (Becomes_refl (rows_of s) h.distinct)
Change-Becomes s t (sends _ key payload) h =
    resume_subscription-Advanced (rows_of s) key payload s.world
      (Becomes_refl (rows_of s) h.distinct)
Change-Becomes s t (promotes _ u) h =
    promote_suspended-Advanced (rows_of s) u s.world (Becomes_refl (rows_of s) h.distinct)
Change-Becomes s t (times_out _ u) h =
    time_out_subscriptions-Advanced (rows_of s) u s.world (Becomes_refl (rows_of s) h.distinct)
Change-Becomes s t (polls _ limit rs w e) h =
    subst (Becomes (rows_of s)) (sym (list_schedulable-eq-ok limit s.world w rs e).0)
      (Becomes_refl (rows_of s) h.distinct)
Change-Becomes s t (resolves _ before after r p result e) h =
    let (q, found, below, open') =
      Known-middle (rows_of s) before after r (subst (All (Known (rows_of s))) e h.known) in
    resolve_outcome-Advanced (rows_of s) r p s.world
      (λ x there v.
        let same = some_injective q x (sym found ∙ there) in
        subst (λ y. is_final y.status ≡ false) same (open' (ap (λ y. y.occ_version) same ∙ v)))
      (Becomes_refl (rows_of s) h.distinct) result
Change-Becomes s t (works _ w e) h =
    subst (Becomes (rows_of s)) (sym e) (Becomes_refl (rows_of s) h.distinct)

still : (s t : System) → Change s t → IsOrdered s → All (Known (rows_of t)) s.handed
still s t c h =
    All-map (Known (rows_of s)) (Known (rows_of t))
      (Known-Becomes (rows_of s) (rows_of t) (Change-Becomes s t c h)) s.handed h.known

-- What a transition leaves in the hands of the runners is known to them.
Change-Known : (s t : System) → Change s t → IsOrdered s → All (Known (rows_of t)) t.handed
Change-Known s t (polls _ limit rs w e) h =
    let (same, scans) = list_schedulable-eq-ok limit s.world w rs e in
    subst (λ rows. All (Known rows) (rs ++ s.handed)) (sym same)
      (Known-append (rows_of s) rs s.handed
        (scanned-Known (rows_of s) _ rs (select_schedulable-Listed limit _ (rows_of s) h.distinct)
          scans)
        h.known)
Change-Known s t (submits _ r) h = still s t (submits s r) h
Change-Known s t (signals _ id signal) h = still s t (signals s id signal) h
Change-Known s t (sends _ key payload) h = still s t (sends s key payload) h
Change-Known s t (promotes _ u) h = still s t (promotes s u) h
Change-Known s t (times_out _ u) h = still s t (times_out s u) h
Change-Known s t (resolves _ before after r p result e) h =
    still s t (resolves s before after r p result e) h
Change-Known s t (works _ w e) h = still s t (works s w e) h

pub Change-IsOrdered : (s t : System) → Change s t → IsOrdered s → IsOrdered t
Change-IsOrdered s t c h = record {
  distinct = (Change-Becomes s t c h).distinct;
  known = Change-Known s t c h;
}

pub Reach-IsOrdered : (s t : System) → Reach s t → IsOrdered s → IsOrdered t
Reach-IsOrdered s t here h = h
Reach-IsOrdered s t (next u _ r c) h = Change-IsOrdered u t c (Reach-IsOrdered s u r h)

pub Starts-IsOrdered : (s : System) → Starts s → IsOrdered s
Starts-IsOrdered s (starts _ empty idle) = record {
  distinct = subst IdsDistinct (sym empty) tt;
  known = subst (All (Known (rows_of s))) (sym idle) tt;
}

pub Reach-Progress :
    (s t : System) (id : Text)
    → IsOrdered s
    → Reach s t
    → Progress (workflow_of id s.world) (workflow_of id t.world)
Reach-Progress s t id h here = Progress-refl (workflow_of id s.world)
Reach-Progress s t id h (next u _ r c) =
    Progress-trans (workflow_of id s.world) (workflow_of id u.world) (workflow_of id t.world)
      (Reach-Progress s u id h r) ((Change-Becomes u t c (Reach-IsOrdered s u r h)).progress id)

-- An outcome is final. Once a workflow is completed, failed or cancelled, its row keeps its status, its
-- result, its error and its version, whatever clients, promoters, schedulers and runners of any number
-- of engines do to the database afterwards, in any interleaving of their calls and with any of them
-- failing. The database was empty at the start.
pub final_stays :
    (s t u : System) (id : Text) (r : WorkflowRow)
    → Starts s
    → Reach s t
    → Reach t u
    → workflow_of id t.world ≡ some r
    → is_final r.status ≡ true
    → (q : WorkflowRow) × (workflow_of id u.world ≡ some q) × SameOutcome r q
final_stays s t u id r start before after present ended =
    let step =
      subst (λ o. Progress o (workflow_of id u.world)) present
        (Reach-Progress t u id (Reach-IsOrdered s t before (Starts-IsOrdered s start)) after) in
    elim (Option-cases (workflow_of id u.world)) [
      | inl gone ↦ absurd (subst (Progress (some r)) gone step)
      | inr (q, there) ↦
          let further : Advance r q = subst (Progress (some r)) there step in
          (q, there, further.final ended)
    ]
