-- ===== src/Runner/Lease.antt =====
-- lease.go, and the lease that `LocalRunner.Run` holds while it executes a workflow.
use flicker.Prelude.{
  ◌≡◌, ◌≢◌, true, false, ◌∷◌, arith, Text, text_eq_iff, text_eq_refl, Bool-cases, ◌⊎◌, inl, inr,
}
use flicker.Errors.{ok}
use flicker.Records.{WorkflowRecord}
use flicker.World.{World}
use flicker.Leases.{contains, acquire, release}
use flicker.Leases.Refines.{contains-remove}
use flicker.Runner.{RegistryEntry, execute_record, run_entry}

-- Of two requests for one workflow only the first gets the lease, until it is released; then the
-- next request gets it. Requests for other workflows do not change that.
acquire_exclusive :
    (id j : Text) (w : World)
    → contains id w.leases ≡ false
    → id ≢ j
    → let v = (acquire j (acquire id w).1).1 in
      ((acquire id w).0 ≡ ok true)
      × ((acquire id v).0 ≡ ok false)
      × ((acquire id (release j v).1).0 ≡ ok false)
      × ((acquire id (release id v).1).0 ≡ ok true)
unfolding acquire release contains
acquire_exclusive id j w free ne = ground (
  arith,
  text_eq_iff id id,
  text_eq_iff id j,
  text_eq_iff j id,
  contains-remove j id (id ∷ w.leases),
  contains-remove j id (j ∷ id ∷ w.leases),
  contains-remove id id (id ∷ w.leases),
  contains-remove id id (j ∷ id ∷ w.leases),
)

-- A workflow whose lease is held is left alone, with no error. Otherwise it is executed under the
-- lease, and the lease is free again afterwards, whatever the execution did and however it ended.
pub run_entry-lease :
    (entry : RegistryEntry) (r : WorkflowRecord) (w : World)
    → (contains r.id w.leases ≡ true) × (run_entry entry r w ≡ (ok tt, w))
      ⊎ (contains r.id w.leases ≡ false)
        × ((run_entry entry r w).0 ≡ (execute_record entry r (acquire r.id w).1).0)
        × (contains r.id (run_entry entry r w).1.leases ≡ false)
unfolding run_entry
run_entry-lease entry r w = elim (Bool-cases (contains r.id w.leases)) [
  | inl held ↦ inl (held, ground arith)
  | inr free ↦ inr (
    free,
    ground arith,
    ground (
      arith,
      text_eq_refl r.id,
      contains-remove r.id r.id (execute_record entry r (acquire r.id w).1).1.leases,
    ),
  )
]
