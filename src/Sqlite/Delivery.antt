-- ===== src/Sqlite/Delivery.antt =====
-- What the transaction of a delivery in sqlite/sqlite.go leaves in the tables.
use flicker.Prelude.{
  suc, ◌+◌, ◌≡◌, ap, ◌∙◌, true, not, List, [], ◌∷◌, none, some, arith, Text, find?,
  find?-filter-not, filter, map_where,
}
use flicker.Time.{Time, format_time}
use flicker.Errors.{ok}
use flicker.Records.{pending, is_suspended}
use flicker.World.{WorkflowRow, SubscriptionRow, World}
use flicker.Sqlite.Workflows.{has_id, promoted}
use flicker.Sqlite.Steps.{replace_row, has_key}
use flicker.Sqlite.Events.{
  in_transaction, has_correlation_key, deliver, resume_subscription, is_suspended_workflow,
  event_row,
}
use flicker.Sqlite.Replace.{find?-replace_row}
use flicker.Sqlite.Occ.{workflow_of}

pub deliver-eq-ok :
    (key payload : Text) (w v : World) (s : SubscriptionRow)
    → find? (has_correlation_key key) w.tables.subscriptions ≡ some s
    → resume_subscription key payload w ≡ (ok tt, v)
    → (v.tables.workflows
        ≡ map_where
            (is_suspended_workflow s.workflow_id)
            (promoted (w.clock (suc w.readings)))
            w.tables.workflows)
      × (v.tables.step_results
          ≡ replace_row (event_row s (some payload) [] (w.clock w.readings)) w.tables.step_results)
      × (v.tables.subscriptions
          ≡ filter (λ x. not (has_correlation_key key x)) w.tables.subscriptions)
unfolding resume_subscription in_transaction deliver
deliver-eq-ok key payload w v s found h = (ground arith, ground arith, ground arith)

find?-map_where-promoted :
    (id : Text) (t : Time) (r : WorkflowRow) (rows : List WorkflowRow)
    → find? (has_id id) rows ≡ some r
    → is_suspended r.status ≡ true
    → find? (has_id id) (map_where (is_suspended_workflow id) (promoted t) rows)
      ≡ some (promoted t r)
unfolding find? map_where
find?-map_where-promoted id t r [] found waits = cc
find?-map_where-promoted id t r (x ∷ xs) found waits =
    ground (arith, find?-map_where-promoted id t r xs)

-- A delivery that returns, for a key with the subscription `s` of a suspended workflow `r`, has
-- made the payload the result of the subscribed step, with no error. The key has no subscription any
-- more, and the workflow is pending and due at once, its version raised by one.
pub resume_subscription_delivers :
    (key payload : Text) (w v : World) (s : SubscriptionRow) (r : WorkflowRow)
    → find? (has_correlation_key key) w.tables.subscriptions ≡ some s
    → workflow_of s.workflow_id w ≡ some r
    → is_suspended r.status ≡ true
    → resume_subscription key payload w ≡ (ok tt, v)
    → (find? (has_key s.type s.version s.workflow_id s.step_name) v.tables.step_results
        ≡ some (record {
          type = s.type;
          version = s.version;
          workflow_id = s.workflow_id;
          step_name = s.step_name;
          result = some payload;
          error = [];
          created_at = format_time (w.clock w.readings);
        }))
      × (find? (has_correlation_key key) v.tables.subscriptions ≡ none)
      × (workflow_of s.workflow_id v
          ≡ some (record r {
            status = pending;
            retry_after = [];
            occ_version = r.occ_version + 1;
            updated_at = format_time (w.clock (suc w.readings));
          }))
resume_subscription_delivers key payload w v s r found present waits h =
    let (workflows, steps, subscriptions) = deliver-eq-ok key payload w v s found h in
    (
      ap (find? _) steps
          ∙ find?-replace_row (event_row s (some payload) [] (w.clock w.readings))
              w.tables.step_results,
      ap (find? _) subscriptions
          ∙ find?-filter-not (has_correlation_key key) w.tables.subscriptions,
      ap (find? _) workflows
          ∙ find?-map_where-promoted s.workflow_id _ r w.tables.workflows present waits,
    )
