-- ===== src/Tests/Runs.antt =====
-- Outcomes, joins, delays and leases at concrete inputs.
use Prim.Native.Nat.{min}
use flicker.Prelude.{
  ◌+◌, ◌*◌, ◌^◌, ◌≡◌, ◌≢◌, refl, false, true, [], ◌∷◌, none, some, ◌⊎◌, arith, Text, codes, text_eq,
  ap, leb, List, Option, if◌then◌else◌,
}
use flicker.Errors.{Error, plain, wrapped, permanent, suspend, cancelled, message, ok, err}
use flicker.Records.{RetryPolicy, Status, failed}
use flicker.Leases.{contains, acquire}
use flicker.Sqlite.Occ.{to_status, to_suspended, to_error, to_retry, write}
use flicker.Runner.{
  RegistryEntry, retry_delay, add_duration, resolve_outcome, execute_record, run_entry,
}
use flicker.Runner.Resolve.{
  InChain, here, under_text, under_permanent, resolve_outcome_cancelled, resolve_outcome_suspended,
  resolve_outcome_transient,
}
use flicker.Runner.Backoff.{retry_delay_fits}
use flicker.Runner.Lease.{run_entry-lease}
use flicker.Parallel.{join_errors}
use flicker.Parallel.Join.{
  join_errors_lem, failure_or, suspended_until, first_failure, latest_suspend,
}
use flicker.Steps.{panicked}
use flicker.Tests.Data.{noon, order_id, start, order_record, order_type}

abbrev policy : RetryPolicy
policy = record { max_attempts = 3; base_delay = 1000000000; max_delay = 300000000000 }

resolve_outcome_cancelled_example :
    resolve_outcome (order_record 7) policy (err (wrapped (codes "run") (permanent cancelled)))
    ≡ write (to_status Status.cancelled none) order_id 1
resolve_outcome_cancelled_example =
    resolve_outcome_cancelled (order_record 7) policy (wrapped (codes "run") (permanent cancelled))
      (under_text (under_permanent (here refl)))

abbrev sleeping : Error
sleeping = wrapped (codes "sleep") (suspend noon)

sleeping_no_cancel : ¬ InChain cancelled sleeping
sleeping_no_cancel (here p) = absurd (ground (arith, p))
sleeping_no_cancel (under_text (here p)) = absurd (ground (arith, p))

sleeping_no_permanent : (c : Error) → ¬ InChain (permanent c) sleeping
sleeping_no_permanent c (here p) = absurd (ground (arith, p))
sleeping_no_permanent c (under_text (here p)) = absurd (ground (arith, p))

resolve_outcome_suspended_example :
    resolve_outcome (order_record 2) policy (err sleeping) ≡ write (to_suspended noon) order_id 1
resolve_outcome_suspended_example =
    resolve_outcome_suspended (order_record 2) policy sleeping noon (under_text (here refl))
      sleeping_no_cancel sleeping_no_permanent

abbrev refused : Error
refused = plain (codes "refused")

resolve_outcome_transient_example : resolve_outcome (order_record 0) policy (err refused) start ≡ (
    if leb 3 1
    then write (to_error failed (message refused)) order_id 1 start
    else write
        (to_retry (noon + min (1000000000 * 2 ^ 0) 300000000000))
        order_id
        1
        (record start { readings = 1 }))
resolve_outcome_transient_example =
    resolve_outcome_transient (order_record 0) policy refused start (omega arith) (omega arith)
      (λ h. refused_alone cancelled h (λ p. absurd (ground (arith, p))))
      (λ c h. refused_alone (permanent c) h (λ p. absurd (ground (arith, p))))
      (λ t h. refused_alone (suspend t) h (λ p. absurd (ground (arith, p))))
  where
    refused_alone : (c : Error) → InChain c refused → c ≢ refused → ⊥
    refused_alone c (here p) ne = ne p

abbrev branch_errors : List (Option Error)
branch_errors = some (suspend 5) ∷ none ∷ some (suspend 9) ∷ []

join_errors_lem_example :
    join_errors branch_errors
    ≡ failure_or (first_failure branch_errors) (suspended_until (latest_suspend branch_errors))
join_errors_lem_example = join_errors_lem branch_errors

retry_delay_fits_example :
    (retry_delay policy 2 ≡ min (1000000000 * 2 ^ 2) 300000000000)
    × (add_duration noon (retry_delay policy 2) ≡ noon + min (1000000000 * 2 ^ 2) 300000000000)
retry_delay_fits_example = retry_delay_fits policy 2 noon (omega arith) (omega arith)

abbrev o2 : Text
o2 = codes "o2"

o2_differs : order_id ≢ o2
unfolding text_eq
o2_differs e = absurd (cc (ap (text_eq order_id) e))

abbrev explosive : RegistryEntry
explosive = record {
  name = order_type;
  execute_workflow = λ wc payload w. (panicked (codes "nil map") [], w);
  retry_policy = policy;
}

run_entry-lease_example :
    (contains order_id start.leases ≡ true)
      × (run_entry explosive (order_record 0) start ≡ (ok tt, start))
    ⊎ (contains order_id start.leases ≡ false)
      × ((run_entry explosive (order_record 0) start).0
          ≡ (execute_record explosive (order_record 0) (acquire order_id start).1).0)
      × (contains order_id (run_entry explosive (order_record 0) start).1.leases ≡ false)
run_entry-lease_example = run_entry-lease explosive (order_record 0) start
