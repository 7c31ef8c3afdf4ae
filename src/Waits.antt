-- ===== src/Waits.antt =====
-- `SleepUntil` and `WaitForEvent` of context.go, and the providers of provider.go and providers.go.
-- A context's counter is raised before the step runs, so each of these gives the new context beside
-- the action. `TimeJson` and `IdJson` stand for encoding/json at `time.Time` and `string`.
pub mod Resume
use flicker.Prelude.{ℕ, ◌+◌, ◌∷◌, ◌++◌, none, some, Text, codes, if◌then◌else◌}
use flicker.Time.{Time, before, decimal}
use flicker.Errors.{suspend, is_suspend, is_event_timeout, event_timeout, Result, ok, err}
use flicker.World.{World, Exec, pure, raise, wrapping, now, next_id, ◌>>=◌, ◌>>◌}
use flicker.Sqlite.Events.{save_subscription}
use flicker.Context.{WorkflowContext, resolve_step_name}
use flicker.Steps.{Json, Outcome, returned, run}

-- `fmt.Sprintf("%s:%d", prefix, counter)`.
unfoldable pub numbered : Text → ℕ → Text
numbered prefix n = prefix ++ (b':' ∷ decimal n)

-- A step function that does not panic.
abbrev pub returning : {A : Type 0} → Exec A → World → Outcome A × World
returning m w = let (r, w') = m w in (returned r, w')

-- `Provider.Get` at a counter that was already raised.
unfoldable pub provider_get :
    {T : Type 0} → Json T → WorkflowContext → Text → ℕ → (World → Outcome T × World) → Exec T
unfolding numbered
provider_get json wc prefix counter gen = run json wc (numbered prefix counter) gen

module _ (TimeJson : Json Time) where
  unfoldable pub sleep_until : WorkflowContext → Time → WorkflowContext × Exec (Unit {0})
  sleep_until wc resume_at =
      let n = wc.sleep_counter + 1 in
      (
        record wc { sleep_counter = n },
        (do
          cached ← run TimeJson wc (numbered (codes "_sleep.until") n) (returning (pure resume_at))
          t ← now
          if before t cached then raise (suspend cached) else pure tt),
      )

  -- `wc.Time.Now(ctx)`.
  unfoldable pub time_now : WorkflowContext → WorkflowContext × Exec Time
  unfolding provider_get
  time_now wc =
      let n = wc.time_counter + 1 in
      (
        record wc { time_counter = n },
        provider_get TimeJson wc (codes "_time.now") n (returning now),
      )

-- `wc.ID.New(ctx)`.
unfoldable pub id_new : Json Text → WorkflowContext → WorkflowContext × Exec Text
unfolding provider_get
id_new IdJson wc =
    let n = wc.id_counter + 1 in
    (record wc { id_counter = n }, provider_get IdJson wc (codes "_id.new") n (returning next_id))

-- The step function of `WaitForEvent`: it never returns a value.
unfoldable pub subscribe : {T : Type 0} → WorkflowContext → Text → Text → ℕ → Exec T
unfolding now save_subscription
subscribe wc name key timeout = do
  t ← now
  u ← now
  wrapping (codes "save subscription") (
      save_subscription (record {
        workflow_id = wc.id;
        type = wc.type;
        version = wc.version;
        step_name = name;
        correlation_key = key;
        deadline = t + timeout;
        created_at = u;
      }))
  raise (suspend (t + timeout))

abbrev pub event_result : {T : Type 0} → Result T → Result T
event_result (ok v) = ok v
event_result (err e) = elim (is_suspend e) [
  | some t ↦ err e
  | none ↦ if is_event_timeout e then err event_timeout else err e
]

unfoldable pub wait_for_event : {T : Type 0} → Json T → WorkflowContext → Text → Text → ℕ → Exec T
wait_for_event json wc name key timeout w =
    let (r, w') =
      run json wc name (returning (subscribe wc (resolve_step_name wc name) key timeout)) w in
    (event_result r, w')
