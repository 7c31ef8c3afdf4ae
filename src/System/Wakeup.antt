-- ===== src/System/Wakeup.antt =====
-- An event that arrives between `SaveSubscription` of context.go and the `Suspend` of runner.go.
use flicker.Prelude.{
  suc, ◌≡◌, refl, sym, ap, ◌∙◌, subst, true, false, List, [], none, some, arith, Text, codes, find?,
  find?-filter-not, map_where,
}
use flicker.Time.{Time, format_time}
use flicker.Errors.{ok}
use flicker.Records.{Status, suspended, is_pending, is_suspended}
use flicker.World.{WorkflowRow, SubscriptionRow, World}
use flicker.Sqlite.Workflows.{has_id, at_version, versioned, update_versioned, promoted, suspend}
use flicker.Sqlite.Steps.{has_key}
use flicker.Sqlite.Events.{
  has_correlation_key, event_row, is_suspended_workflow, resume_subscription,
}
use flicker.Sqlite.Replace.{find?-replace_row}
use flicker.Sqlite.Delivery.{deliver-eq-ok}
use flicker.Sqlite.Occ.{
  workflow_of, IdsDistinct, count_where-at_version, find?-map_where, rewritten_same,
}
use flicker.System.Advance.{updated_if, find?-map_where-updated, IdsDistinct-map_where-updated}

-- A versioned write that meets its version, and whose queries succeed.
update_versioned_answered :
    (what id : Text) (set' : WorkflowRow → WorkflowRow) (u : World) (r : WorkflowRow)
    → IdsDistinct u.tables.workflows
    → workflow_of id u ≡ some r
    → u.driver u.calls ≡ none
    → u.driver (suc u.calls) ≡ none
    → ((update_versioned what id r.occ_version set' u).0 ≡ ok tt)
      × ((update_versioned what id r.occ_version set' u).1.tables ≡ record u.tables {
        workflows =
            map_where
              (at_version id r.occ_version)
              (versioned (u.clock u.readings) set')
              u.tables.workflows;
      })
unfolding update_versioned
update_versioned_answered what id set' u r d found first second =
    let one = count_where-at_version id r.occ_version u.tables.workflows d in
    (ground (arith, one, found, first, second), ground (arith, one, found, first, second))

not_suspended_of_pending : (s : Status) → is_pending s ≡ true → is_suspended s ≡ false
not_suspended_of_pending Status.pending h = refl
not_suspended_of_pending Status.unset h = refl
not_suspended_of_pending Status.running h = refl
not_suspended_of_pending Status.completed h = refl
not_suspended_of_pending Status.failed h = refl
not_suspended_of_pending Status.cancelled h = refl
not_suspended_of_pending Status.suspended h = absurd (ground (arith, h))

-- A delivery leaves the row of a workflow in execution as it is.
unpromoted :
    (id : Text) (t : Time) (r : WorkflowRow) (rows : List WorkflowRow)
    → find? (has_id id) rows ≡ some r
    → is_pending r.status ≡ true
    → find? (has_id id) (map_where (is_suspended_workflow id) (promoted t) rows) ≡ some r
unpromoted id t r rows found busy =
    find?-map_where-updated (is_suspended_workflow id) (promoted t) (λ q. refl) id rows
    ∙ ap (updated_if (is_suspended_workflow id) (promoted t)) found
    ∙ ground (arith, not_suspended_of_pending r.status busy)

-- An event that is delivered while the workflow is still in execution, with its subscription saved
-- and its row pending, becomes the result of the subscribed step and uses up the subscription, but does
-- not wake the workflow: the suspension that the runner writes afterwards succeeds, and the workflow
-- sleeps until the deadline. The delivery has returned, the two queries of the suspension succeed, the
-- tables are as the delivery left them and no identifier stands in two rows.
pub wakeup_lost :
    (key payload : Text) (w v u : World) (s : SubscriptionRow) (r : WorkflowRow) (deadline : Time)
    → IdsDistinct w.tables.workflows
    → find? (has_correlation_key key) w.tables.subscriptions ≡ some s
    → workflow_of s.workflow_id w ≡ some r
    → is_pending r.status ≡ true
    → resume_subscription key payload w ≡ (ok tt, v)
    → u.tables ≡ v.tables
    → u.driver u.calls ≡ none
    → u.driver (suc u.calls) ≡ none
    → let (result, x) = suspend s.workflow_id deadline r.occ_version u in
      (result ≡ ok tt)
      × (find? (has_key s.type s.version s.workflow_id s.step_name) x.tables.step_results
          ≡ some (event_row s (some payload) [] (w.clock w.readings)))
      × (find? (has_correlation_key key) x.tables.subscriptions ≡ none)
      × (workflow_of s.workflow_id x
          ≡ some (
              versioned
                (u.clock u.readings)
                (λ q. record q { status = suspended; retry_after = format_time deadline })
                r))
unfolding suspend
wakeup_lost key payload w v u s r deadline d found present busy returned same first second =
    let t : Time = w.clock (suc w.readings) in
    let (workflows, steps, subscriptions) = deliver-eq-ok key payload w v s found returned in
    let rows : u.tables.workflows
        ≡ map_where (is_suspended_workflow s.workflow_id) (promoted t) w.tables.workflows =
      ap (λ x. x.workflows) same ∙ workflows in
    let here : workflow_of s.workflow_id u ≡ some r =
      ap (find? (has_id s.workflow_id)) rows
      ∙ unpromoted s.workflow_id t r w.tables.workflows present busy in
    let distinct : IdsDistinct u.tables.workflows =
      subst IdsDistinct (sym rows)
        (IdsDistinct-map_where-updated _ (promoted t) (λ q. refl) w.tables.workflows d) in
    let (done, tables) =
      update_versioned_answered (codes "suspend") s.workflow_id
        (λ q. record q { status = suspended; retry_after = format_time deadline }) u r distinct here
        first second in
    (
      done,
      ap (find? _) (ap (λ x. x.step_results) tables ∙ ap (λ x. x.step_results) same ∙ steps)
          ∙ find?-replace_row (event_row s (some payload) [] (w.clock w.readings))
              w.tables.step_results,
      ap (find? _)
            (ap (λ x. x.subscriptions) tables ∙ ap (λ x. x.subscriptions) same ∙ subscriptions)
          ∙ find?-filter-not (has_correlation_key key) w.tables.subscriptions,
      ap (λ x. find? (has_id s.workflow_id) x.workflows) tables
          ∙ find?-map_where s.workflow_id r.occ_version (u.clock u.readings)
              (λ q. record q { status = suspended; retry_after = format_time deadline })
              s.workflow_id u.tables.workflows
          ∙ rewritten_same s.workflow_id r.occ_version _ u.tables.workflows r here refl,
    )
