-- ===== src/Engine/Dispatch.antt =====
-- From the end of a sleep to the dispatch: a tick of promoter.go, then a poll of scheduler.go.
use flicker.Prelude.{
  ℕ, zero, suc, ◌/◌, ◌<◌, ◌≤◌, ◌≡◌, ◌≢◌, refl, ap, ◌∙◌, Bool, true, false, ◌||◌, ◌&&◌, List, [],
  ◌∷◌, none, some, arith, Text, text_eq, find?, filter, count_where, map_where, length, take, All,
  if◌then◌else◌,
}
use flicker.Time.{Time, second, format_time}
use flicker.Time.Order.{IsFourDigit}
use flicker.Errors.{ok}
use flicker.Records.{WorkflowRecord, suspended}
use flicker.World.{WorkflowRow, World, now, call}
use flicker.Sqlite.Scan.{scan_workflow, scan_all}
use flicker.Sqlite.Workflows.{
  has_id, update_workflows, is_due, promoted, promote_suspended, is_schedulable, insert_by,
  order_by, select_schedulable, list_schedulable,
}
use flicker.Sqlite.Events.{is_suspended_workflow}
use flicker.Sqlite.Occ.{workflow_of}
use flicker.Sqlite.Rows.{length-order_by, All-order_by, All-filter_and, All-map}
use flicker.Sqlite.Promotion.{is_due_of_resume, promoted_if, find?-map_where-promoted}
use flicker.Sqlite.Kept.{Kept, time_out_subscriptions-Kept}
use flicker.Sqlite.Readable.{IsReadable, promoted-All, scan_workflow_of_IsReadable}
use flicker.Engine.{promote, time_out_subscriptions, promotion_cycle, poll}

module _ {A : Type 0} where
  -- Whether the test holds of one of them.
  abbrev pub has_some : (A → Bool) → List A → Bool
  has_some p [] = false
  has_some p (x ∷ xs) = p x || has_some p xs

  has_some-filter :
      (q p : A → Bool) (xs : List A) (x : A)
      → find? q xs ≡ some x
      → p x ≡ true
      → has_some q (filter p xs) ≡ true
  unfolding find? filter
  has_some-filter q p [] x h k = absurd (ground (arith, h))
  has_some-filter q p (y ∷ ys) x h k = ground (arith, has_some-filter q p ys x)

  has_some-insert_by :
      (q : A → Bool) (key : A → Text) (x : A) (xs : List A)
      → has_some q (insert_by key x xs) ≡ (q x || has_some q xs)
  unfolding insert_by
  has_some-insert_by q key x [] = refl
  has_some-insert_by q key x (y ∷ ys) = ground (arith, has_some-insert_by q key x ys)

  has_some-order_by :
      (q : A → Bool) (key : A → Text) (xs : List A) → has_some q (order_by key xs) ≡ has_some q xs
  unfolding order_by
  has_some-order_by q key [] = refl
  has_some-order_by q key (x ∷ xs) =
      rw (has_some-insert_by q key x (order_by key xs), has_some-order_by q key xs)

  take_of_length : (n : ℕ) (xs : List A) → length xs ≤ n → take n xs ≡ xs
  take_of_length zero [] h = refl
  take_of_length zero (x ∷ xs) h = absurd (omega arith)
  take_of_length (suc n) [] h = refl
  take_of_length (suc n) (x ∷ xs) h = ap (λ ys. x ∷ ys) (take_of_length n xs (omega arith))

  length-filter-le : (p : A → Bool) (xs : List A) → length (filter p xs) ≤ length xs
  unfolding filter
  length-filter-le p [] = omega arith
  length-filter-le p (x ∷ xs) = ground (arith, length-filter-le p xs)

  length-map_where :
      (p : A → Bool) (s : A → A) (xs : List A) → length (map_where p s xs) ≡ length xs
  unfolding map_where
  length-map_where p s [] = refl
  length-map_where p s (x ∷ xs) = ground (arith, length-map_where p s xs)

  count_where_of_find :
      (q p : A → Bool) (xs : List A) (x : A)
      → find? q xs ≡ some x
      → p x ≡ true
      → 0 < count_where p xs
  unfolding find? count_where
  count_where_of_find q p [] x h k = absurd (ground (arith, h))
  count_where_of_find q p (y ∷ ys) x h k = ground (arith, count_where_of_find q p ys x)

-- Whether a workflow is among the records that are dispatched.
abbrev pub dispatches : Text → List WorkflowRecord → Bool
dispatches id xs = has_some (λ x. text_eq x.id id) xs

scanned_ids :
    (id : Text) (rows : List WorkflowRow)
    → All IsReadable rows
    → (xs : List WorkflowRecord) × (scan_all scan_workflow rows ≡ ok xs)
      × (dispatches id xs ≡ has_some (has_id id) rows)
unfolding scan_all
scanned_ids id [] h = ([], refl, refl)
scanned_ids id (r ∷ rs) h =
    let (x, e, same) = scan_workflow_of_IsReadable r h.0 in
    let (xs, es, sames) = scanned_ids id rs h.1 in (x ∷ xs, rw e (rw es refl), rw (same, sames))

-- The rows in which the workflow waits no longer.
abbrev Awake : Text → Time → WorkflowRow → ℕ → List WorkflowRow → Type 0
Awake id t r k rows =
    All IsReadable rows × (find? (has_id id) rows ≡ some (promoted t r)) × (length rows ≡ k)

never {ℓ} : {A : Type ℓ} (b : Bool) (x y : A) → (if b && false then x else y) ≡ y
never true x y = refl
never false x y = refl

Awake-promotes :
    (id other : Text) (t t' : Time) (r : WorkflowRow) (k : ℕ) (rows : List WorkflowRow)
    → IsFourDigit t'
    → Awake id t r k rows
    → Awake id t r k (map_where (is_suspended_workflow other) (promoted t') rows)
Awake-promotes id other t t' r k rows y h = (
  promoted-All (is_suspended_workflow other) t' rows y h.0,
  find?-map_where-promoted (is_suspended_workflow other) t' id rows
      ∙ (rw h.1 (ap some (never (text_eq r.id other) _ _))),
  length-map_where (is_suspended_workflow other) (promoted t') rows ∙ h.2,
)

poll-dispatches :
    (id : Text) (t : Time) (r : WorkflowRow) (k limit : ℕ) (w : World)
    → Awake id t r k w.tables.workflows
    → k ≤ limit
    → ((n : ℕ) → w.driver n ≡ none)
    → dispatches id (poll limit w).0 ≡ true
unfolding poll list_schedulable now call select_schedulable
poll-dispatches id t r k limit w h enough answers =
    let u : Time = w.clock w.readings in
    let rows = w.tables.workflows in
    let eligible = filter (is_schedulable u) rows in
    let ordered = order_by (λ x. x.created_at) eligible in
    let whole : take limit ordered ≡ ordered = take_of_length limit ordered (
      omega (
        arith,
        length-order_by (λ x. x.created_at) eligible,
        length-filter-le (is_schedulable u) rows,
        h.2,
      )) in
    let readable : All IsReadable ordered =
      All-order_by IsReadable (λ x. x.created_at) eligible
        (All-map _ IsReadable (λ x a. a.0) eligible
          (All-filter_and IsReadable (is_schedulable u) rows h.0)) in
    let (xs, scans, same) = scanned_ids id ordered readable in
    let there : has_some (has_id id) ordered ≡ true =
      has_some-order_by (has_id id) (λ x. x.created_at) eligible
      ∙ has_some-filter (has_id id) (is_schedulable u) rows (promoted t r) h.1 refl in
    rw (answers w.calls, poll) (rw whole (rw scans (same ∙ there)))

module _ (w : World) (answers : (n : ℕ) → w.driver n ≡ none) where
  -- The world after the promotion: two queries and one reading of the clock later.
  abbrev behind_promotion : World
  behind_promotion =
      let t : Time = w.clock w.readings in
      record w {
        readings = suc w.readings;
        calls = suc (suc w.calls);
        tables = record w.tables {
          workflows = map_where (is_due t) (promoted t) w.tables.workflows;
        };
      }

  promote_answered :
      promote w
      ≡ (ok (count_where (is_due (w.clock w.readings)) w.tables.workflows), behind_promotion)
  unfolding promote promote_suspended update_workflows now call
  promote_answered = rw (answers w.calls, promote) (rw (answers (suc w.calls)) refl)

  module _ (id : Text) (r : WorkflowRow) (resume : Time) (limit : ℕ)
      (years : (n : ℕ) → IsFourDigit (w.clock n)) (readable : All IsReadable w.tables.workflows)
      (present : workflow_of id w ≡ some r) (waits : r.status ≡ suspended)
      (stored : r.retry_after ≡ format_time resume) (positive : 0 < resume)
      (year : IsFourDigit resume) (over : resume < w.clock w.readings)
      (apart : resume / second ≢ w.clock w.readings / second)
      (enough : length w.tables.workflows ≤ limit) where
    abbrev time_now : Time
    time_now = w.clock w.readings

    due : is_due time_now r ≡ true
    due =
        is_due_of_resume time_now resume r waits stored positive (omega (arith, over, positive))
          year (years w.readings) apart
        ∙ ground (arith, over)

    Awake-behind_promotion :
        Awake id time_now r (length w.tables.workflows) behind_promotion.tables.workflows
    Awake-behind_promotion = (
      promoted-All (is_due time_now) time_now w.tables.workflows (years w.readings) readable,
      find?-map_where-promoted (is_due time_now) time_now id w.tables.workflows
          ∙ ap (promoted_if (is_due time_now) time_now) present
          ∙ ap (λ b. some (if b then promoted time_now r else r)) due,
      length-map_where (is_due time_now) (promoted time_now) w.tables.workflows,
    )

    abbrev timed_out : World
    timed_out = (time_out_subscriptions behind_promotion).1

    timed_out-Kept :
        Kept
          (Awake id time_now r (length w.tables.workflows))
          IsFourDigit
          w.clock
          w.driver
          years
          timed_out
    unfolding time_out_subscriptions now
    timed_out-Kept =
        time_out_subscriptions-Kept (Awake id time_now r (length w.tables.workflows)) IsFourDigit
          w.clock w.driver years
          (λ other t' rows y h.
            Awake-promotes id other time_now t' r (length w.tables.workflows) rows y h)
          (w.clock (suc w.readings)) (record behind_promotion { readings = suc (suc w.readings) })
          (years (suc w.readings)) (Awake-behind_promotion, refl, refl)

    -- A sleep that is over ends in a dispatch. Where a workflow is suspended until a time that has
    -- passed, in an earlier second than the clock's, a tick of the promoter reports that work is ready,
    -- and the next poll of the scheduler dispatches the workflow, timed-out events or not. The queries
    -- succeed, all rows can be read, the times lie in years of four digits and the limit of the poll
    -- is no less than the number of workflows.
    pub sleeper_dispatched :
        ((promotion_cycle w).0 ≡ true) × (dispatches id (poll limit (promotion_cycle w).1).0 ≡ true)
    unfolding promotion_cycle
    sleeper_dispatched =
        let some_due : 0 < count_where (is_due time_now) w.tables.workflows =
          count_where_of_find (has_id id) (is_due time_now) w.tables.workflows r present due in
        let kept = timed_out-Kept in
        (
          rw promote_answered (ground (arith, some_due)),
          rw promote_answered (
              poll-dispatches id time_now r (length w.tables.workflows) limit timed_out kept.0
                enough (λ n. ap (λ f. f n) kept.2 ∙ answers n)),
        )
