-- ===== src/Sqlite/Promotion.antt =====
-- `PromoteSuspended` and `ListSchedulable` of sqlite/sqlite.go.
use Prim.Native.Nat.{min}
use flicker.Prelude.{
  ℕ, ◌/◌, ◌%◌, ◌<◌, ◌≡◌, ◌≢◌, refl, ap, ◌∙◌, Bool, true, false, List, [], ◌∷◌, Option, none, some,
  arith, Text, is_empty, find?, filter, count_where, map_where, length, All, ltb, if◌then◌else◌,
}
use flicker.Time.{Time, second, format_time}
use flicker.Time.Order.{IsFourDigit, text_le-format_time, text_le-format_time_full_second}
use flicker.Time.Parse.{parse_time}
use flicker.Time.RoundTrip.{parse_time-format_time}
use flicker.Errors.{ok}
use flicker.Records.{suspended}
use flicker.World.{WorkflowRow, World}
use flicker.Sqlite.Workflows.{
  has_id, is_due, promoted, promote_suspended, is_schedulable, select_schedulable, order_by,
}
use flicker.Sqlite.Occ.{workflow_of}
use flicker.Sqlite.Rows.{
  length-order_by, length-filter, length-take, All-take, All-order_by, All-filter,
}

abbrev pub promoted_if : (WorkflowRow → Bool) → Time → Option WorkflowRow → Option WorkflowRow
promoted_if p t none = none
promoted_if p t (some r) = some (if p r then promoted t r else r)

pub find?-map_where-promoted :
    (p : WorkflowRow → Bool) (t : Time) (id : Text) (rows : List WorkflowRow)
    → find? (has_id id) (map_where p (promoted t) rows) ≡ promoted_if p t (find? (has_id id) rows)
unfolding find? map_where
find?-map_where-promoted p t id [] = refl
find?-map_where-promoted p t id (r ∷ rs) = ground (arith, find?-map_where-promoted p t id rs)

promote_suspended-workflow_of :
    (t : Time) (n : ℕ) (id : Text) (w v : World)
    → promote_suspended t w ≡ (ok n, v)
    → workflow_of id v ≡ promoted_if (is_due t) t (workflow_of id w)
unfolding promote_suspended
promote_suspended-workflow_of t n id w v h =
    let tables : v.tables.workflows ≡ map_where (is_due t) (promoted t) w.tables.workflows =
      ground arith in
    ap (find? (has_id id)) tables ∙ find?-map_where-promoted (is_due t) t id w.tables.workflows

not_empty : (s : Text) → s ≢ [] → is_empty s ≡ false
not_empty [] h = absurd (h refl)
not_empty (c ∷ cs) h = refl

pub is_empty-format_time : (t : Time) → 0 < t → IsFourDigit t → is_empty (format_time t) ≡ false
unfolding parse_time
is_empty-format_time t h y =
    not_empty (format_time t) (λ e. cc (ap parse_time e, parse_time-format_time t h y))

pub is_due_of_resume :
    (t resume : Time) (r : WorkflowRow)
    → r.status ≡ suspended
    → r.retry_after ≡ format_time resume
    → 0 < resume
    → 0 < t
    → IsFourDigit resume
    → IsFourDigit t
    → resume / second ≢ t / second
    → is_due t r ≡ ltb resume t
is_due_of_resume t resume r waits stored pr pt yr yt apart =
    ground
      (arith, is_empty-format_time resume pr yr, text_le-format_time resume t pr pt yr yt apart)

module _ (t resume : Time) (n : ℕ) (id : Text) (w v : World) (r : WorkflowRow) where
  -- A promotion at time `t` that returns makes a workflow that was suspended until `resume` pending
  -- and due at once if its time has passed, and leaves it alone if not, where the two times lie in
  -- different seconds of years 1 to 9999.
  promote_suspended_on_time :
      workflow_of id w ≡ some r
      → r.status ≡ suspended
      → r.retry_after ≡ format_time resume
      → 0 < resume
      → 0 < t
      → IsFourDigit resume
      → IsFourDigit t
      → resume / second ≢ t / second
      → promote_suspended t w ≡ (ok n, v)
      → workflow_of id v ≡ some (if ltb resume t then promoted t r else r)
  promote_suspended_on_time present waits stored pr pt yr yt apart done =
      let due = is_due_of_resume t resume r waits stored pr pt yr yt apart in
      promote_suspended-workflow_of t n id w v done
      ∙ ap (promoted_if (is_due t) t) present
      ∙ ap (λ b. some (if b then promoted t r else r)) due

  -- Within a second it may come late: a workflow that was suspended until a full second, in a year of
  -- four digits, is not changed by a promotion at any later time of that second that returns, though
  -- its time has passed.
  pub promote_suspended_late :
      workflow_of id w ≡ some r
      → r.status ≡ suspended
      → r.retry_after ≡ format_time resume
      → 0 < resume
      → IsFourDigit resume
      → resume % second ≡ 0
      → resume < t
      → t / second ≡ resume / second
      → promote_suspended t w ≡ (ok n, v)
      → workflow_of id v ≡ some r
  promote_suspended_late present waits stored pr yr full later same done =
      let due : is_due t r ≡ false =
        ground (arith, text_le-format_time_full_second resume t pr yr full later same) in
      promote_suspended-workflow_of t n id w v done
      ∙ ap (promoted_if (is_due t) t) present
      ∙ ap (λ b. some (if b then promoted t r else r)) due

-- The scheduler is given schedulable workflows only, and no more than the limit; and it is given all
-- of them unless they are more than that.
pub select_schedulable_lem :
    (limit : ℕ) (t : Time) (rows : List WorkflowRow)
    → All (λ r. is_schedulable t r ≡ true) (select_schedulable limit t rows)
      × (length (select_schedulable limit t rows) ≡ min limit (count_where (is_schedulable t) rows))
unfolding select_schedulable
select_schedulable_lem limit t rows =
    let eligible = filter (is_schedulable t) rows in
    (
      All-take _ limit _
          (All-order_by _ (λ r. r.created_at) eligible (All-filter (is_schedulable t) rows)),
      rw (
        length-take limit (order_by (λ r. r.created_at) eligible),
        length-order_by (λ r. r.created_at) eligible,
        length-filter (is_schedulable t) rows,
      ),
    )
