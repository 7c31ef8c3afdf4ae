-- ===== src/System/Once.antt =====
-- Two runners with the same workflow: the outcome of one counts.
use flicker.Prelude.{
  ℕ, suc, ◌+◌, ◌≡◌, refl, sym, ap, ◌∙◌, subst, Bool, true, false, List, ◌∷◌, ◌++◌, Option, none,
  some, arith, Text, Option-cases, inl, inr, leb, if◌then◌else◌,
}
use flicker.Time.{Time}
use flicker.Errors.{
  Error, Result, occ_conflict, ok, err, is_cancelled, as_permanent, is_suspend, message,
}
use flicker.Records.{WorkflowRecord, RetryPolicy, Status, completed, failed}
use flicker.World.{World, Exec, now}
use flicker.Sqlite.Workflows.{suspend, set_retry}
use flicker.Sqlite.Occ.{
  Write, to_status, to_error, to_retry, to_suspended, write, workflow_of, write_raises, write_stale,
}
use flicker.Runner.{resolve_outcome, resolve_error, retry_or_fail, retry_delay, add_duration}
use flicker.System.{System, resolves, Reach, Starts}
use flicker.System.Advance.{Advance, Progress}
use flicker.System.Final.{Reach-Progress, Change-IsOrdered, Reach-IsOrdered, Starts-IsOrdered}

-- An outcome is one of the four writes, behind a reading of the clock where it is a retry.
abbrev OneWrite : WorkflowRecord → Exec (Unit {0}) → World → Type 0
OneWrite r m w =
    (c : Write) × (n : ℕ) × (m w ≡ write c r.id r.occ_version (record w { readings = n }))

module _ (r : WorkflowRecord) (p : RetryPolicy) (w : World) where
  if-OneWrite :
      (b : Bool) (m k : Exec (Unit {0}))
      → OneWrite r m w
      → OneWrite r k w
      → OneWrite r (if b then m else k) w
  if-OneWrite true m k h g = h
  if-OneWrite false m k h g = g

  retry_or_fail-OneWrite : (e : Error) → OneWrite r (retry_or_fail r p e) w
  unfolding retry_or_fail set_retry now
  retry_or_fail-OneWrite e =
      if-OneWrite (leb p.max_attempts (r.attempts + 1)) _ _
        (to_error failed (message e), w.readings, refl)
        (
          to_retry (add_duration (w.clock w.readings) (retry_delay p r.attempts)),
          suc w.readings,
          refl,
        )

  suspended-OneWrite :
      (e : Error) (o : Option Time)
      → OneWrite r
          (elim o as (λ x. Exec (Unit {0})) [
            | none ↦ retry_or_fail r p e
            | some t ↦ suspend r.id t r.occ_version
          ])
          w
  suspended-OneWrite e (some t) = (to_suspended t, w.readings, refl)
  suspended-OneWrite e none = retry_or_fail-OneWrite e

  resolve_error-OneWrite : (e : Error) → OneWrite r (resolve_error r p e) w
  unfolding resolve_error
  resolve_error-OneWrite e =
      if-OneWrite (is_cancelled e) _ _ (to_status Status.cancelled none, w.readings, refl)
        (elim (Option-cases (as_permanent e)) [
          | inr (cause, permanent) ↦
              rw permanent (to_error failed (message cause), w.readings, refl)
          | inl transient ↦ rw transient (suspended-OneWrite e (is_suspend e))
        ])

  resolve_outcome-OneWrite : (result : Result Text) → OneWrite r (resolve_outcome r p result) w
  unfolding resolve_outcome
  resolve_outcome-OneWrite (ok json) = (to_status completed (some json), w.readings, refl)
  resolve_outcome-OneWrite (err e) = resolve_error-OneWrite e

-- Of all executions of a workflow at one version, one outcome at most is written: after the outcome of
-- a runner was written, that of any other runner that holds a record of this workflow at the same
-- version is refused as a conflict and changes no table, whatever both outcomes are and whatever
-- clients, promoters, schedulers and runners did in between. The database was empty at the start, and
-- the two queries of the second write succeed.
pub outcome_once :
    (s t u : System) (before after : List WorkflowRecord) (r q : WorkflowRecord)
    (p p' : RetryPolicy) (result result' : Result Text)
    → Starts s
    → Reach s t
    → t.handed ≡ before ++ (r ∷ after)
    → (resolve_outcome r p result t.world).0 ≡ ok tt
    → Reach (record t { world = (resolve_outcome r p result t.world).1 }) u
    → q.id ≡ r.id
    → q.occ_version ≡ r.occ_version
    → u.world.driver u.world.calls ≡ none
    → u.world.driver (suc u.world.calls) ≡ none
    → ((resolve_outcome q p' result' u.world).0 ≡ err occ_conflict)
      × ((resolve_outcome q p' result' u.world).1.tables ≡ u.world.tables)
outcome_once s t u before after r q p p' result result' start reached holds done later same_id
      same_version first second =
    let done_to : World = (resolve_outcome r p result t.world).1 in
    let t' : System = record t { world = done_to } in
    let ordered = Reach-IsOrdered s t reached (Starts-IsOrdered s start) in
    let ordered' = Change-IsOrdered t t' (resolves t before after r p result holds) ordered in
    let (c, n, first_write) = resolve_outcome-OneWrite r p t.world result in
    let (row, found, raised) =
      write_raises c r.id r.occ_version (record t.world { readings = n }) done_to ordered.distinct
        (sym first_write ∙ ap (λ a. (a, done_to)) done) in
    let step =
      subst (λ o. Progress o (workflow_of r.id u.world)) found
        (Reach-Progress t' u r.id ordered' later) in
    let (c', n', second_write) = resolve_outcome-OneWrite q p' u.world result' in
    elim (Option-cases (workflow_of r.id u.world)) [
      | inl gone ↦ absurd (subst (Progress (some row)) gone step)
      | inr (x, there) ↦
          let further : Advance row x = subst (Progress (some row)) there step in
          let refused =
            write_stale c' q.id q.occ_version (record u.world { readings = n' }) x
              (Reach-IsOrdered t' u later ordered').distinct
              (ap (λ i. workflow_of i u.world) same_id ∙ there)
              (λ e. omega (arith, further.later, raised, same_version, e)) first second in
          (ap (λ y. y.0) (second_write ∙ refused), ap (λ y. y.1.tables) (second_write ∙ refused))
    ]
