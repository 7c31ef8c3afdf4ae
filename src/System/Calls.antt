-- ===== src/System/Calls.antt =====
-- Each call of the store advances the rows of the workflows, whether it succeeds or fails.
use flicker.Prelude.{
  ℕ, suc, codes, leb, ◌+◌, ◌≡◌, refl, sym, ap, ◌∙◌, Bool, true, false, List, Option, none, some,
  arith, Text, text_eq_iff, find?, find?-holds, map_where, Option-cases, inl, inr, if◌then◌else◌,
}
use flicker.Time.{Time, format_time}
use flicker.Errors.{Result, ok, err, Error, is_cancelled, as_permanent, is_suspend, message}
use flicker.Records.{
  WorkflowRecord, RetryPolicy, Status, Signal, pending, failed, suspended, completed,
}
use flicker.World.{WorkflowRow, World, Exec, now}
use flicker.Sqlite.Workflows.{
  has_id, at_version, versioned, update_versioned, insert_workflow, create, set_signal, is_due,
  promoted, promote_suspended, update_status, set_error, set_retry, suspend,
}
use flicker.Sqlite.Events.{is_suspended_workflow, resume_subscription, time_out_subscriptions}
use flicker.Sqlite.RoundTrip.{row_of_record}
use flicker.Sqlite.Kept.{
  promote_suspended-Kept, resume_subscription-Kept, time_out_subscriptions-Kept,
}
use flicker.Runner.{resolve_outcome, resolve_error, retry_or_fail, retry_delay, add_duration}
use flicker.System.Advance.{is_final, Advance-moved}
use flicker.System.Moves.{Becomes, Becomes-map_where, Becomes-append, promoted-Becomes}

module _ (old : List WorkflowRow) where
  abbrev pub Advanced : World → Type 0
  Advanced w = Becomes old w.tables.workflows

  pub create-Advanced : (r : WorkflowRecord) (w : World) → Advanced w → Advanced (create r w).1
  unfolding create insert_workflow
  create-Advanced r w h = elim (Option-cases (find? (has_id r.id) w.tables.workflows)) [
    | inl fresh ↦ ground (
      arith,
      h,
      fresh,
      Becomes-append old (row_of_record r (w.clock w.readings)) w.tables.workflows fresh h,
    )
    | inr (q, taken) ↦ ground (arith, h, taken)
  ]

  pub set_signal-Advanced :
      (id : Text) (signal : Signal) (w : World) → Advanced w → Advanced (set_signal id signal w).1
  unfolding set_signal
  set_signal-Advanced id signal w h =
      let t : Time = w.clock w.readings in
      ground (
        arith,
        h,
        Becomes-map_where old (has_id id)
            (λ r. record r { signal = signal; updated_at = format_time t }) (λ r. refl)
            w.tables.workflows
            (λ j r found hit. record {
              later = omega arith;
              same_status = λ e. refl;
              final = λ e. (refl, refl, refl, refl);
            })
            h,
      )

  pub promote_suspended-Advanced :
      (t : Time) (w : World) → Advanced w → Advanced (promote_suspended t w).1
  promote_suspended-Advanced t w h =
      (promote_suspended-Kept (Becomes old) (λ x. Unit) w.clock w.driver (λ n. tt) t w tt
        (λ x rows y. promoted-Becomes old (is_due t) (λ r hit. ground (arith, hit)) x rows)
        (h, refl, refl)).0

  woken :
      (id : Text) (t : Time) (rows : List WorkflowRow)
      → Unit {0}
      → Becomes old rows
      → Becomes old (map_where (is_suspended_workflow id) (promoted t) rows)
  woken id t rows y =
      promoted-Becomes old (is_suspended_workflow id) (λ r hit. ground (arith, hit)) t rows

  pub resume_subscription-Advanced :
      (key payload : Text) (w : World) → Advanced w → Advanced (resume_subscription key payload w).1
  resume_subscription-Advanced key payload w h =
      (resume_subscription-Kept (Becomes old) (λ x. Unit) w.clock w.driver (λ n. tt) woken key
        payload w (h, refl, refl)).0

  pub time_out_subscriptions-Advanced :
      (t : Time) (w : World) → Advanced w → Advanced (time_out_subscriptions t w).1
  time_out_subscriptions-Advanced t w h =
      (time_out_subscriptions-Kept (Becomes old) (λ x. Unit) w.clock w.driver (λ n. tt) woken t w tt
        (h, refl, refl)).0

  -- A versioned write, where no row of a final status stands at the expected version.
  abbrev pub OpenAt : Text → ℕ → World → Type 0
  OpenAt id n w =
      (r : WorkflowRow)
      → find? (has_id id) w.tables.workflows ≡ some r
      → r.occ_version ≡ n
      → is_final r.status ≡ false

  update_versioned-Advanced :
      (what id : Text) (n : ℕ) (set' : WorkflowRow → WorkflowRow) (w : World)
      → OpenAt id n w
      → Advanced w
      → Advanced (update_versioned what id n set' w).1
  unfolding update_versioned
  update_versioned-Advanced what id n set' w open' h =
      let t : Time = w.clock w.readings in
      ground (
        arith,
        h,
        Becomes-map_where old (at_version id n) (versioned t set') (λ r. refl) w.tables.workflows
            (λ j r found hit.
              let held = find?-holds (has_id j) w.tables.workflows r found in
              let same : j ≡ id =
                ground (arith, held, hit, text_eq_iff r.id j, text_eq_iff r.id id) in
              Advance-moved r (versioned t set' r) refl (
                open' r (ap (λ i. find? (has_id i) w.tables.workflows) (sym same) ∙ found)
                  (ground (arith, hit))))
            h,
      )

  if-Advanced :
      (b : Bool) (m k : Exec (Unit {0})) (w : World)
      → Advanced (m w).1
      → Advanced (k w).1
      → Advanced ((if b then m else k) w).1
  if-Advanced true m k w h g = h
  if-Advanced false m k w h g = g

  -- The writes of a runner, at the version that it read.
  module _ (r : WorkflowRecord) (p : RetryPolicy) (w : World) (open' : OpenAt r.id r.occ_version w)
      (h : Advanced w) where
    update_status-Advanced :
        (s : Status) (result : Option Text)
        → Advanced (update_status r.id s result r.occ_version w).1
    unfolding update_status
    update_status-Advanced s result =
        update_versioned-Advanced _ r.id r.occ_version
          (λ q. record q { status = s; result = result }) w open' h

    set_error-Advanced :
        (s : Status) (text : Text) → Advanced (set_error r.id s text r.occ_version w).1
    unfolding set_error
    set_error-Advanced s text =
        update_versioned-Advanced _ r.id r.occ_version (λ q. record q { status = s; error = text })
          w open' h

    suspend-Advanced : (t : Time) → Advanced (suspend r.id t r.occ_version w).1
    unfolding suspend
    suspend-Advanced t =
        update_versioned-Advanced _ r.id r.occ_version
          (λ q. record q { status = suspended; retry_after = format_time t }) w open' h

    retry_or_fail-Advanced : (e : Error) → Advanced (retry_or_fail r p e w).1
    unfolding retry_or_fail set_retry now
    retry_or_fail-Advanced e =
        if-Advanced (leb p.max_attempts (r.attempts + 1)) _ _ w
          (set_error-Advanced failed (message e))
          (update_versioned-Advanced (codes "set retry") r.id r.occ_version
            (λ q. record q {
              status = pending;
              retry_after =
                  format_time (add_duration (w.clock w.readings) (retry_delay p r.attempts));
              attempts = q.attempts + 1;
            })
            (record w { readings = suc w.readings }) open' h)

    resolve_suspended-Advanced :
        (e : Error) (o : Option Time)
        → Advanced
            ((elim o as (λ x. Exec (Unit {0})) [
              | none ↦ retry_or_fail r p e
              | some t ↦ suspend r.id t r.occ_version
            ])
              w).1
    resolve_suspended-Advanced e (some t) = suspend-Advanced t
    resolve_suspended-Advanced e none = retry_or_fail-Advanced e

    resolve_error-Advanced : (e : Error) → Advanced (resolve_error r p e w).1
    unfolding resolve_error
    resolve_error-Advanced e =
        if-Advanced (is_cancelled e) _ _ w (update_status-Advanced Status.cancelled none)
          (elim (Option-cases (as_permanent e)) [
            | inr (cause, permanent) ↦ rw permanent (set_error-Advanced failed (message cause))
            | inl transient ↦ rw transient (resolve_suspended-Advanced e (is_suspend e))
          ])

    pub resolve_outcome-Advanced :
        (result : Result Text) → Advanced (resolve_outcome r p result w).1
    unfolding resolve_outcome
    resolve_outcome-Advanced (ok json) = update_status-Advanced completed (some json)
    resolve_outcome-Advanced (err e) = resolve_error-Advanced e
