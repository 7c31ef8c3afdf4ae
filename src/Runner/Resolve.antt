-- ===== src/Runner/Resolve.antt =====
-- What `resolveOutcome` of runner.go writes for each way in which an execution can end, told by the
-- chain of the error alone.
use Prim.Native.Nat.{min}
use flicker.Prelude.{
  suc, ◌+◌, ◌*◌, ◌^◌, ◌<◌, ◌≡◌, refl, true, false, none, some, arith, Text, leb, if◌then◌else◌,
}
use flicker.Time.{Time}
use flicker.Errors.{
  Error, wrapped, permanent, workflow_execution, suspend, cancelled, message, is_suspend,
  as_permanent, is_cancelled, err,
}
use flicker.Records.{WorkflowRecord, RetryPolicy, Status, failed}
use flicker.World.{World}
use flicker.Sqlite.Occ.{to_status, to_error, to_retry, to_suspended, write}
use flicker.Runner.{retry_or_fail, resolve_error, resolve_outcome}
use flicker.Runner.Backoff.{retry_delay_fits}

-- `InChain c e`: `c` is `e`, or is reached from it by `Unwrap`.
pub data InChain (c : Error) : Error → Type 0 where
  here : {e : Error} → c ≡ e → InChain c e
  under_text : {s : Text} {e : Error} → InChain c e → InChain c (wrapped s e)
  under_permanent : {e : Error} → InChain c e → InChain c (permanent e)
  under_execution : {id : Text} {e : Error} → InChain c e → InChain c (workflow_execution id e)

is_cancelled-InChain : {e : Error} → InChain cancelled e → is_cancelled e ≡ true
unfolding is_cancelled
is_cancelled-InChain (here p) = rw (← p)
is_cancelled-InChain (under_text h) = is_cancelled-InChain h
is_cancelled-InChain (under_permanent h) = is_cancelled-InChain h
is_cancelled-InChain (under_execution h) = is_cancelled-InChain h

is_cancelled_absent : (e : Error) → ¬ InChain cancelled e → is_cancelled e ≡ false
unfolding is_cancelled
is_cancelled_absent (wrapped s e) h = is_cancelled_absent e (λ c. h (under_text c))
is_cancelled_absent (permanent e) h = is_cancelled_absent e (λ c. h (under_permanent c))
is_cancelled_absent (workflow_execution id e) h = is_cancelled_absent e (λ c. h (under_execution c))
is_cancelled_absent cancelled h = absurd (h (here refl))
is_cancelled_absent _ h = refl

as_permanent_absent :
    (e : Error) → ((c : Error) → ¬ InChain (permanent c) e) → as_permanent e ≡ none
unfolding as_permanent
as_permanent_absent (wrapped s e) h = as_permanent_absent e (λ c p. h c (under_text p))
as_permanent_absent (workflow_execution id e) h =
    as_permanent_absent e (λ c p. h c (under_execution p))
as_permanent_absent (permanent e) h = absurd (h e (here refl))
as_permanent_absent _ h = refl

is_suspend-InChain : {t : Time} {e : Error} → InChain (suspend t) e → is_suspend e ≡ some t
unfolding is_suspend
is_suspend-InChain (here p) = rw (← p)
is_suspend-InChain (under_text h) = is_suspend-InChain h
is_suspend-InChain (under_permanent h) = is_suspend-InChain h
is_suspend-InChain (under_execution h) = is_suspend-InChain h

is_suspend_absent : (e : Error) → ((t : Time) → ¬ InChain (suspend t) e) → is_suspend e ≡ none
unfolding is_suspend
is_suspend_absent (wrapped s e) h = is_suspend_absent e (λ t p. h t (under_text p))
is_suspend_absent (permanent e) h = is_suspend_absent e (λ t p. h t (under_permanent p))
is_suspend_absent (workflow_execution id e) h = is_suspend_absent e (λ t p. h t (under_execution p))
is_suspend_absent (suspend t) h = absurd (h t (here refl))
is_suspend_absent _ h = refl

module _ (r : WorkflowRecord) (p : RetryPolicy) (e : Error) where
  -- A cancellation anywhere in the chain ends the workflow as cancelled, also inside a permanent
  -- error and however often the workflow was tried.
  pub resolve_outcome_cancelled :
      InChain cancelled e
      → resolve_outcome r p (err e) ≡ write (to_status Status.cancelled none) r.id r.occ_version
  unfolding resolve_outcome resolve_error
  resolve_outcome_cancelled h = rw (is_cancelled-InChain h)

  -- A suspension anywhere in the chain, with no cancellation and no permanent error in it, suspends
  -- the workflow until the time that it names, however often the workflow was tried.
  pub resolve_outcome_suspended :
      (t : Time)
      → InChain (suspend t) e
      → ¬ InChain cancelled e
      → ((c : Error) → ¬ InChain (permanent c) e)
      → resolve_outcome r p (err e) ≡ write (to_suspended t) r.id r.occ_version
  unfolding resolve_outcome resolve_error
  resolve_outcome_suspended t h no_cancel no_permanent =
      rw (is_cancelled_absent e no_cancel, as_permanent_absent e no_permanent, is_suspend-InChain h)

  -- Any other error is tried again after the base delay doubled per attempt, at most the maximum of
  -- the policy, or fails the workflow with the text of the error if this was the last attempt that the
  -- policy allows. The doubled delay and the maximum fit an int64.
  pub resolve_outcome_transient :
      (w : World)
      → p.base_delay * 2 ^ r.attempts < 2 ^ 63
      → p.max_delay < 2 ^ 63
      → ¬ InChain cancelled e
      → ((c : Error) → ¬ InChain (permanent c) e)
      → ((t : Time) → ¬ InChain (suspend t) e)
      → resolve_outcome r p (err e) w ≡ (
          if leb p.max_attempts (r.attempts + 1)
          then write (to_error failed (message e)) r.id r.occ_version w
          else write
              (to_retry (w.clock w.readings + min (p.base_delay * 2 ^ r.attempts) p.max_delay))
              r.id
              r.occ_version
              (record w { readings = suc w.readings }))
  unfolding resolve_outcome resolve_error retry_or_fail
  resolve_outcome_transient w fits max_fits no_cancel no_permanent no_suspend =
      rw
        (
          ← (retry_delay_fits p r.attempts (w.clock w.readings) fits max_fits).1,
          is_cancelled_absent e no_cancel,
          as_permanent_absent e no_permanent,
          is_suspend_absent e no_suspend,
        )
        (ground arith)
