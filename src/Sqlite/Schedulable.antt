-- ===== src/Sqlite/Schedulable.antt =====
-- What `ListSchedulable` of sqlite/sqlite.go returns, told without its query.
use Prim.Native.Nat.{min}
use mathlib.Core.List.{Perm, perm_middle}
use mathlib.Core.List.Perm
use flicker.Prelude.{
  ℕ, zero, suc, ◌≡◌, refl, ap, Bool, true, false, not, List, [], ◌∷◌, ◌++◌, arith, ◌⊎◌, inl, inr,
  Text, text_le, is_empty, ◌||◌, filter, take, length, All, Bool-cases,
}
use flicker.Time.{Time, format_time}
use flicker.Errors.{ok}
use flicker.Records.{Status, WorkflowRecord, pending, is_pending}
use flicker.World.{WorkflowRow, World}
use flicker.Sqlite.Scan.{scan_workflow, scan_all}
use flicker.Sqlite.Workflows.{
  insert_by, order_by, is_schedulable, select_schedulable, list_schedulable,
}
use flicker.Sqlite.Rows.{length-take, All-order_by, All-filter}

-- Pending, and due at once or at a time that has come.
abbrev pub IsSchedulable : Time → WorkflowRow → Type 0
IsSchedulable t r =
    (r.status ≡ pending) × ((r.retry_after ≡ []) ⊎ (text_le r.retry_after (format_time t) ≡ true))

-- The oldest first.
abbrev pub IsByAge : List WorkflowRow → Type 0
IsByAge [] = Unit
IsByAge (r ∷ rs) = All (λ q. text_le r.created_at q.created_at ≡ true) rs × IsByAge rs

text_le_total : (a b : Text) → text_le a b ≡ false → text_le b a ≡ true
unfolding text_le
text_le_total [] b h = absurd (ground (arith, h))
text_le_total (x ∷ xs) [] h = refl
text_le_total (x ∷ xs) (y ∷ ys) h = ground (arith, text_le_total xs ys)

text_le_trans : (a b c : Text) → text_le a b ≡ true → text_le b c ≡ true → text_le a c ≡ true
unfolding text_le
text_le_trans [] b c h k = refl
text_le_trans (x ∷ xs) [] c h k = absurd (ground (arith, h))
text_le_trans (x ∷ xs) (y ∷ ys) [] h k = absurd (ground (arith, k))
text_le_trans (x ∷ xs) (y ∷ ys) (z ∷ zs) h k = ground (arith, text_le_trans xs ys zs)

All-weaken :
    (P Q : WorkflowRow → Type 0) (rows : List WorkflowRow)
    → ((r : WorkflowRow) → P r → Q r)
    → All P rows
    → All Q rows
All-weaken P Q [] f h = tt
All-weaken P Q (r ∷ rs) f h = (f r h.0, All-weaken P Q rs f h.1)

module _ (r : WorkflowRow) where
  All-insert_by :
      (P : WorkflowRow → Type 0) (rows : List WorkflowRow)
      → P r
      → All P rows
      → All P (insert_by (λ q. q.created_at) r rows)
  unfolding insert_by
  All-insert_by P [] p h = (p, tt)
  All-insert_by P (q ∷ qs) p h = ground (arith, All-insert_by P qs p h.1)

  insert_by-IsByAge :
      (rows : List WorkflowRow) → IsByAge rows → IsByAge (insert_by (λ q. q.created_at) r rows)
  unfolding insert_by
  insert_by-IsByAge [] h = (tt, tt)
  insert_by-IsByAge (q ∷ qs) h = elim (Bool-cases (text_le r.created_at q.created_at)) [
    | inl e ↦ rw e (
      (e, All-weaken _ _ qs (λ x k. text_le_trans r.created_at q.created_at x.created_at e k) h.0),
      h,
    )
    | inr e ↦ rw e (
      All-insert_by (λ x. text_le q.created_at x.created_at ≡ true) qs
          (text_le_total r.created_at q.created_at e) h.0,
      insert_by-IsByAge qs h.1,
    )
  ]

  insert_by-Perm :
      (rows : List WorkflowRow) → Perm (insert_by (λ q. q.created_at) r rows) (r ∷ rows)
  unfolding insert_by
  insert_by-Perm [] = Perm.refl (r ∷ [])
  insert_by-Perm (q ∷ qs) = elim (Bool-cases (text_le r.created_at q.created_at)) [
    | inl e ↦ rw e (Perm.refl (r ∷ q ∷ qs))
    | inr e ↦ rw e (Perm.trans (Perm.cons q (insert_by-Perm qs)) (Perm.swap r q qs))
  ]

order_by-IsByAge : (rows : List WorkflowRow) → IsByAge (order_by (λ q. q.created_at) rows)
unfolding order_by
order_by-IsByAge [] = tt
order_by-IsByAge (r ∷ rs) =
    insert_by-IsByAge r (order_by (λ q. q.created_at) rs) (order_by-IsByAge rs)

order_by-Perm : (rows : List WorkflowRow) → Perm (order_by (λ q. q.created_at) rows) rows
unfolding order_by
order_by-Perm [] = Perm.nil
order_by-Perm (r ∷ rs) =
    Perm.trans (insert_by-Perm r (order_by (λ q. q.created_at) rs)) (Perm.cons r (order_by-Perm rs))

-- The rows that a test keeps and those that it drops are all rows.
filter-Perm :
    (p : WorkflowRow → Bool) (rows : List WorkflowRow)
    → Perm (filter p rows ++ filter (λ r. not (p r)) rows) rows
unfolding filter
filter-Perm p [] = Perm.nil
filter-Perm p (r ∷ rs) = elim (Bool-cases (p r)) [
  | inl e ↦ rw e (Perm.cons r (filter-Perm p rs))
  | inr e ↦ rw e (
      Perm.trans (perm_middle (filter p rs) (filter (λ x. not (p x)) rs))
        (Perm.cons r (filter-Perm p rs)))
]

take_rest :
    (n : ℕ) (rows : List WorkflowRow) → (rest : List WorkflowRow) × (take n rows ++ rest ≡ rows)
take_rest zero rows = (rows, refl)
take_rest (suc n) [] = ([], refl)
take_rest (suc n) (r ∷ rs) = let (rest, e) = take_rest n rs in (rest, ap (◌∷◌ r) e)

is_schedulable-IsSchedulable :
    (t : Time) (r : WorkflowRow) → is_schedulable t r ≡ true → IsSchedulable t r
is_schedulable-IsSchedulable t r h =
    (waiting r.status (ground (arith, h)), due r.retry_after (ground (arith, h)))
  where
    waiting : (s : Status) → is_pending s ≡ true → s ≡ pending
    waiting Status.pending k = refl
    waiting Status.unset k = absurd (ground (arith, k))
    waiting Status.running k = absurd (ground (arith, k))
    waiting Status.completed k = absurd (ground (arith, k))
    waiting Status.failed k = absurd (ground (arith, k))
    waiting Status.cancelled k = absurd (ground (arith, k))
    waiting Status.suspended k = absurd (ground (arith, k))

    due :
        (x : Text)
        → (is_empty x || text_le x (format_time t)) ≡ true
        → (x ≡ []) ⊎ (text_le x (format_time t) ≡ true)
    due [] k = inl refl
    due (c ∷ cs) k = inr k

IsSchedulable-is_schedulable :
    (t : Time) (r : WorkflowRow) → IsSchedulable t r → is_schedulable t r ≡ true
IsSchedulable-is_schedulable t r (waits, inl now) = rw (waits, now) refl
IsSchedulable-is_schedulable t r (waits, inr past) = ground (arith, waits, past)

dropped : (t : Time) (r : WorkflowRow) → not (is_schedulable t r) ≡ true → ¬ IsSchedulable t r
dropped t r h k = absurd (ground (arith, h, IsSchedulable-is_schedulable t r k))

-- `ListSchedulable` divides the table: where it returns, the records are those of `chosen`, and `chosen`,
-- `later` and `others` are the rows of the table, each as often as it stands there. `chosen` and `later`
-- hold exactly the schedulable rows, the oldest first, and `chosen` as many of them as the limit allows.
-- No table is changed.
pub list_schedulable_lem :
    (limit : ℕ) (w v : World) (records : List WorkflowRecord)
    → list_schedulable limit w ≡ (ok records, v)
    → (chosen : List WorkflowRow) × (later : List WorkflowRow) × (others : List WorkflowRow)
      × (scan_all scan_workflow chosen ≡ ok records)
      × Perm ((chosen ++ later) ++ others) w.tables.workflows
      × All (IsSchedulable (w.clock w.readings)) (chosen ++ later)
      × All (λ r. ¬ IsSchedulable (w.clock w.readings) r) others
      × IsByAge (chosen ++ later)
      × (length chosen ≡ min limit (length (chosen ++ later)))
      × (v.tables ≡ w.tables)
unfolding list_schedulable select_schedulable
list_schedulable_lem limit w v records h =
    let t : Time = w.clock w.readings in
    let eligible = filter (is_schedulable t) w.tables.workflows in
    let ordered = order_by (λ r. r.created_at) eligible in
    let (later, whole) = take_rest limit ordered in
    let others = filter (λ r. not (is_schedulable t r)) w.tables.workflows in
    (
      take limit ordered,
      later,
      others,
      ground (arith, h),
      rw whole (
          Perm.trans (Perm.append_right others (order_by-Perm eligible))
            (filter-Perm (is_schedulable t) w.tables.workflows)),
      rw whole (
          All-order_by _ (λ r. r.created_at) eligible
            (All-weaken _ _ eligible (is_schedulable-IsSchedulable t)
              (All-filter (is_schedulable t) w.tables.workflows))),
      All-weaken _ _ others (dropped t)
          (All-filter (λ r. not (is_schedulable t r)) w.tables.workflows),
      rw whole (order_by-IsByAge eligible),
      rw whole (length-take limit ordered),
      ground (arith, h),
    )
