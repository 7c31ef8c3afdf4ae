-- ===== src/Telemetry/Gauge.antt =====
-- The counter `workflow.suspended` beside the number of suspended workflows.
use flicker.Prelude.{
  ℕ, suc, ◌+◌, ◌≡◌, refl, ap, subst, codes, text_eq, ◌∙◌, Bool, true, List, [], ◌∷◌, none, some,
  Text, text_eq_iff, find?, count_where, map_where, arith, Bool-cases, inl, inr,
}
use flicker.Time.{Time}
use flicker.Errors.{Result, ok, err}
use flicker.Records.{is_suspended}
use flicker.World.{WorkflowRow, SubscriptionRow, World, now, call, wrap_error}
use flicker.Sqlite.Workflows.{has_id, is_due, promoted, promote_suspended, update_workflows}
use flicker.Sqlite.Events.{has_correlation_key, is_suspended_workflow, resume_subscription}
use flicker.Sqlite.Delivery.{deliver-eq-ok}
use flicker.Sqlite.Occ.{IdsDistinct, workflow_of}
use flicker.Engine.{promote, send_event}
use flicker.Telemetry.{Emission, down, adds, workflow_suspended}
use flicker.Telemetry.Execution.{moved, traced_promote, traced_send_event}

abbrev pub suspended_count : World → ℕ
suspended_count w = count_where (λ r. is_suspended r.status) w.tables.workflows

-- By how much the emissions lower the counter.
abbrev lowered : List Emission → ℕ
lowered [] = 0
lowered (adds workflow_suspended (down k) attrs ∷ es) = k + lowered es
lowered (_ ∷ es) = lowered es

-- The rows that a promotion selects leave the suspended ones.
left_suspended :
    (p : WorkflowRow → Bool) (t : Time) (rows : List WorkflowRow)
    → ((r : WorkflowRow) → p r ≡ true → is_suspended r.status ≡ true)
    → count_where (λ r. is_suspended r.status) (map_where p (promoted t) rows) + count_where p rows
      ≡ count_where (λ r. is_suspended r.status) rows
unfolding count_where map_where
left_suspended p t [] h = refl
left_suspended p t (r ∷ rs) h = ground (arith, left_suspended p t rs h, h r)

none_suspended :
    (id : Text) (rows : List WorkflowRow)
    → find? (has_id id) rows ≡ none
    → count_where (is_suspended_workflow id) rows ≡ 0
unfolding count_where find?
none_suspended id [] h = refl
none_suspended id (x ∷ xs) h = ground (arith, none_suspended id xs, h)

one_suspended :
    (id : Text) (r : WorkflowRow) (rows : List WorkflowRow)
    → IdsDistinct rows
    → find? (has_id id) rows ≡ some r
    → is_suspended r.status ≡ true
    → count_where (is_suspended_workflow id) rows ≡ 1
unfolding count_where find?
one_suspended id r [] d found waits = ground (arith, found)
one_suspended id r (x ∷ xs) d found waits = elim (Bool-cases (text_eq x.id id)) [
  | inl here ↦
      let gone : find? (has_id id) xs ≡ none =
        subst (λ i. find? (has_id i) xs ≡ none) ((text_eq_iff x.id id).0 here) d.0 in
      ground (arith, here, found, waits, none_suspended id xs gone)
  | inr apart ↦ ground (arith, apart, found, one_suspended id r xs d.1, waits)
]

lowered-moved : (n : ℕ) → lowered (moved (ok n)) ≡ n
lowered-moved n = ground arith

promote-eq-ok :
    (n : ℕ) (w v : World)
    → promote w ≡ (ok n, v)
    → (count_where (is_due (w.clock w.readings)) w.tables.workflows ≡ n)
      × (v.tables.workflows
          ≡ map_where
              (is_due (w.clock w.readings))
              (promoted (w.clock w.readings))
              w.tables.workflows)
unfolding promote now promote_suspended call update_workflows
promote-eq-ok n w v h = (ground arith, ground arith)

-- A promotion that returns lowers the counter by the number of workflows that it took out of their
-- suspension.
promote_counted :
    (n : ℕ) (w v : World)
    → (traced_promote w).0 ≡ (ok n, v)
    → suspended_count v + lowered (traced_promote w).1 ≡ suspended_count w
unfolding traced_promote
promote_counted n w v h =
    let t : Time = w.clock w.readings in
    let (count, rows) = promote-eq-ok n w v h in
    let emitted : lowered (moved (promote w).0) ≡ n =
      ap (λ (x : Result ℕ × World). lowered (moved x.0)) h ∙ lowered-moved n in
    omega (
      arith,
      emitted,
      count,
      ap (count_where (λ r. is_suspended r.status)) rows,
      left_suspended (is_due t) t w.tables.workflows (λ r e. ground (arith, e)),
    )

unwrapped :
    (what : Text) (x : Result (Unit {0}) × World) (v : World)
    → ◌≡◌ {A = Result (Unit {0}) × World} (wrap_error what x.0, x.1) (ok tt, v)
    → x ≡ (ok tt, v)
unwrapped what (ok done, w) v h = h
unwrapped what (err e, w) v h = cc

-- An event wakes a suspended workflow and does not lower the counter, which from then on counts a
-- workflow as suspended that is not.
pub send_event_uncounted :
    (key raw : Text) (w v : World) (s : SubscriptionRow) (r : WorkflowRow)
    → IdsDistinct w.tables.workflows
    → find? (has_correlation_key key) w.tables.subscriptions ≡ some s
    → workflow_of s.workflow_id w ≡ some r
    → is_suspended r.status ≡ true
    → (traced_send_event key (some raw) w).0 ≡ (ok tt, v)
    → ((traced_send_event key (some raw) w).1 ≡ []) × (suspended_count w ≡ suc (suspended_count v))
unfolding traced_send_event send_event
send_event_uncounted key raw w v s r d found present waits h =
    let t : Time = w.clock (suc w.readings) in
    let (rows, _, _) =
      deliver-eq-ok key raw w v s found
        (unwrapped (codes "resume subscription") (resume_subscription key raw w) v h) in
    (
      refl,
      omega (
        arith,
        ap (count_where (λ q. is_suspended q.status)) rows,
        one_suspended s.workflow_id r w.tables.workflows d present waits,
        left_suspended (is_suspended_workflow s.workflow_id) t w.tables.workflows
            (λ q e. ground (arith, e)),
      ),
    )
