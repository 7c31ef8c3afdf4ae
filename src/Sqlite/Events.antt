-- ===== src/Sqlite/Events.antt =====
-- The operations of sqlite/sqlite.go on the table `subscriptions`, and their transactions.
use flicker.Prelude.{
  ℕ, Bool, not, ◌&&◌, List, [], ◌∷◌, ◌++◌, Option, none, some, Text, codes, text_eq, text_le,
  is_empty, filter, find?, length,
}
use flicker.Time.{Time, format_time}
use flicker.Errors.{plain, subscription_not_found, Result, ok, err}
use flicker.Records.{Subscription, is_suspended}
use flicker.World.{
  WorkflowRow, SubscriptionRow, Tables, World, Exec, pure, raise, gets, wrapping, put_tables,
  modify_tables, now, call, ◌>>=◌, ◌>>◌,
}
use flicker.Sqlite.Workflows.{update_workflows, promoted}
use flicker.Sqlite.Steps.{insert_step}

abbrev rollback {ℓ} : {A : Type ℓ} → Tables → Result A × World → Result A × World
rollback t (ok a, w) = (ok a, w)
rollback t (err e, w) = (err e, put_tables t w)

-- `BeginTx`, the statements with their `Commit`, and the deferred `Rollback` of an early return, which
-- takes back the statements, as SQLite documents.
unfoldable pub in_transaction {ℓ} : {A : Type ℓ} → Exec A → Exec A
in_transaction m w = rollback w.tables (m w)

abbrev pub has_correlation_key : Text → SubscriptionRow → Bool
has_correlation_key key s = text_eq s.correlation_key key

-- The insert fails where the correlation key is taken.
unfoldable pub insert_subscription : SubscriptionRow → Exec (Unit {0})
unfolding find?
insert_subscription s = do
  old ← gets (λ w. find? (has_correlation_key s.correlation_key) w.tables.subscriptions)
  elim old [
    | none ↦ modify_tables (λ t. record t { subscriptions = t.subscriptions ++ (s ∷ []) })
    | some other ↦ raise (plain (codes "UNIQUE constraint failed: subscriptions.correlation_key"))
  ]

unfoldable pub save_subscription : Subscription → Exec (Unit {0})
unfolding call insert_subscription
save_subscription s = wrapping (codes "save subscription") (
    call
    >> insert_subscription (record {
      correlation_key = s.correlation_key;
      workflow_id = s.workflow_id;
      type = s.type;
      version = s.version;
      step_name = s.step_name;
      deadline = format_time s.deadline;
      created_at = format_time s.created_at;
    }))

unfoldable pub delete_subscription : Text → Exec (Unit {0})
unfolding filter
delete_subscription key = modify_tables (λ t. record t {
  subscriptions = filter (λ s. not (has_correlation_key key s)) t.subscriptions;
})

-- `WHERE id = ? AND status = 'suspended'`.
abbrev pub is_suspended_workflow : Text → WorkflowRow → Bool
is_suspended_workflow id r = text_eq r.id id && is_suspended r.status

abbrev found : Option SubscriptionRow → Exec SubscriptionRow
found none = raise subscription_not_found
found (some s) = pure s

abbrev pub event_row : SubscriptionRow → Option Text → Text → Time → flicker.World.StepRow
event_row s result error t = record {
  type = s.type;
  version = s.version;
  workflow_id = s.workflow_id;
  step_name = s.step_name;
  result = result;
  error = error;
  created_at = format_time t;
}

unfoldable pub deliver : Text → Text → Exec (Unit {0})
unfolding now call find? insert_step delete_subscription update_workflows
deliver key payload = do
  wrapping (codes "begin tx") call
  wrapping (codes "find subscription") call
  row ← gets (λ w. find? (has_correlation_key key) w.tables.subscriptions)
  sub ← found row
  t ← now
  wrapping (codes "save event step result") call
  insert_step (event_row sub (some payload) [] t)
  wrapping (codes "delete subscription") call
  delete_subscription key
  u ← now
  wrapping (codes "promote workflow") call
  update_workflows (is_suspended_workflow sub.workflow_id) (promoted u)
  call

unfoldable pub resume_subscription : Text → Text → Exec (Unit {0})
resume_subscription key payload = in_transaction (deliver key payload)

-- `stepErrorTimeout` of run.go, which this package writes as a literal.
abbrev pub step_error_timeout : Text
step_error_timeout = codes "event_timeout"

-- `WHERE deadline != '' AND deadline <= ?`.
abbrev pub is_expired : Time → SubscriptionRow → Bool
is_expired t s = not (is_empty s.deadline) && text_le s.deadline (format_time t)

-- One round of the loop over the expired subscriptions.
unfoldable pub time_out : Time → SubscriptionRow → Exec (Unit {0})
unfolding call insert_step delete_subscription update_workflows
time_out t sub = do
  wrapping (codes "save timeout marker") call
  insert_step (event_row sub none step_error_timeout t)
  wrapping (codes "delete expired subscription") call
  delete_subscription sub.correlation_key
  wrapping (codes "promote timed out workflow") call
  update_workflows (is_suspended_workflow sub.workflow_id) (promoted t)
  pure tt

unfoldable pub time_out_all : Time → List SubscriptionRow → Exec (Unit {0})
unfolding time_out
time_out_all t [] = pure tt
time_out_all t (sub ∷ subs) = time_out t sub >> time_out_all t subs

unfoldable pub expire : Time → Exec ℕ
unfolding call filter time_out_all
expire t = do
  wrapping (codes "begin tx") call
  wrapping (codes "query expired subscriptions") call
  subs ← gets (λ w. filter (is_expired t) w.tables.subscriptions)
  time_out_all t subs
  wrapping (codes "commit") call
  pure (length subs)

unfoldable pub time_out_subscriptions : Time → Exec ℕ
time_out_subscriptions t = in_transaction (expire t)
