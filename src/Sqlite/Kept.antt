-- ===== src/Sqlite/Kept.antt =====
-- What the operations of sqlite/sqlite.go keep of the rows of the workflows, where each promotion of
-- such rows keeps it.
use flicker.Prelude.{
  Option, ℕ, suc, arith, subst, sym, Option-cases, inl, inr, ◌≡◌, Bool, List, [], ◌∷◌, Text, filter,
  find?, map_where,
}
use flicker.Time.{Time}
use flicker.Errors.{Result, ok, err}
use flicker.World.{WorkflowRow, SubscriptionRow, World, Exec, continue}
use flicker.Sqlite.Workflows.{promoted, is_due, promote_suspended}
use flicker.Sqlite.Events.{
  is_suspended_workflow, has_correlation_key, is_expired, in_transaction, deliver,
  resume_subscription, time_out, time_out_all, expire, time_out_subscriptions,
}

-- What the operations keep of the rows of the workflows, of the clock and of the driver; `Q` holds of
-- every reading of the clock.
module _ (R : List WorkflowRow → Type 0) (Q : Time → Type 0) (c : ℕ → Time) (d : ℕ → Option Text)
    (years : (n : ℕ) → Q (c n)) where
  abbrev pub Kept : World → Type 0
  Kept w = R w.tables.workflows × (w.clock ≡ c) × (w.driver ≡ d)

  in_transaction-Kept :
      {A : Type 0} (m : Exec A) (w : World) → Kept w → Kept (m w).1 → Kept (in_transaction m w).1
  unfolding in_transaction
  in_transaction-Kept m w h k = ground (arith, h, k)

  -- The rows stay so under each promotion of the rows that `p` selects.
  abbrev pub Promotes : (WorkflowRow → Bool) → Type 0
  Promotes p =
      (t : Time) (rows : List WorkflowRow) → Q t → R rows → R (map_where p (promoted t) rows)

  pub promote_suspended-Kept :
      (t : Time) (w : World) → Q t → Promotes (is_due t) → Kept w → Kept (promote_suspended t w).1
  unfolding promote_suspended
  promote_suspended-Kept t w y h k = ground (arith, k, h t w.tables.workflows y k.0)

  module _ (woken : (id : Text) → Promotes (is_suspended_workflow id)) where
    deliver-Kept : (key payload : Text) (w : World) → Kept w → Kept (deliver key payload w).1
    unfolding deliver
    deliver-Kept key payload w k =
        elim (Option-cases (find? (has_correlation_key key) w.tables.subscriptions)) [
          | inl e ↦ ground (arith, k, e)
          | inr (s, e) ↦ ground (
            arith,
            k,
            e,
            woken s.workflow_id (w.clock (suc w.readings)) w.tables.workflows
                (subst (λ f. Q (f (suc w.readings))) (sym k.1) (years (suc w.readings))) k.0,
          )
        ]

    pub resume_subscription-Kept :
        (key payload : Text) (w : World) → Kept w → Kept (resume_subscription key payload w).1
    unfolding resume_subscription
    resume_subscription-Kept key payload w k =
        in_transaction-Kept (deliver key payload) w k (deliver-Kept key payload w k)

    time_out-Kept :
        (t : Time) (s : SubscriptionRow) (w : World) → Q t → Kept w → Kept (time_out t s w).1
    unfolding time_out
    time_out-Kept t s w y k = ground (arith, k, woken s.workflow_id t w.tables.workflows y k.0)

    time_out_all-Kept :
        (t : Time) (subs : List SubscriptionRow) (w : World)
        → Q t
        → Kept w
        → Kept (time_out_all t subs w).1
    unfolding time_out_all
    time_out_all-Kept t [] w y k = k
    time_out_all-Kept t (s ∷ subs) w y k =
        go (time_out t s w) (time_out-Kept t s w y k) (λ v. time_out_all-Kept t subs v y)
      where
        go :
            (r : Result (Unit {0}) × World)
            → Kept r.1
            → ((v : World) → Kept v → Kept (time_out_all t subs v).1)
            → Kept (continue r (λ _. time_out_all t subs)).1
        go (ok a, v) k rest = rest v k
        go (err e, v) k rest = k

    expire-Kept : (t : Time) (w : World) → Q t → Kept w → Kept (expire t w).1
    unfolding expire
    expire-Kept t w y k =
        let subs = filter (is_expired t) w.tables.subscriptions in
        let v : World = record w { calls = suc (suc w.calls) } in
        ground (arith, k, time_out_all-Kept t subs v y k)

    pub time_out_subscriptions-Kept :
        (t : Time) (w : World) → Q t → Kept w → Kept (time_out_subscriptions t w).1
    unfolding time_out_subscriptions
    time_out_subscriptions-Kept t w y k = in_transaction-Kept (expire t) w k (expire-Kept t w y k)
