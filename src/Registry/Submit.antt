-- ===== src/Registry/Submit.antt =====
-- The status of a workflow after `Submit` in registry.go.
use flicker.Prelude.{
  suc, ◌≡◌, refl, [], none, some, Option-cases, Bool-cases, inl, inr, arith, Text, is_empty,
  if◌then◌else◌,
}
use flicker.Time.Order.{IsFourDigit}
use flicker.Time.Calendar.{date_of}
use flicker.Errors.{ok}
use flicker.Records.{WorkflowRecord, running, pending, signal_none}
use flicker.World.{World}
use flicker.Sqlite.Workflows.{create}
use flicker.Sqlite.RoundTrip.{get-create}
use flicker.Leases.{contains}
use flicker.Steps.{Json}
use flicker.Registry.{WorkflowDef, def_name, submit, derive_status, status}

zero-IsFourDigit : IsFourDigit 0
unfolding date_of
zero-IsFourDigit = omega arith

abbrev record_of : Text → Text → Text → Text → WorkflowRecord
record_of id type version payload = record {
  id = id;
  type = type;
  version = version;
  status = pending;
  signal = signal_none;
  payload = payload;
  result = none;
  error = [];
  retry_after = 0;
  attempts = 0;
  occ_version = 0;
  created_at = 0;
  updated_at = 0;
}

module _ {R Resp : Type 0} (RequestJson : Json R) (d : WorkflowDef R Resp) where
  submit-eq-ok :
      (request : R) (given id payload : Text) (w v : World)
      → RequestJson.marshal request ≡ some payload
      → submit RequestJson d request given w ≡ (ok id, v)
      → (w' : World) × (w'.clock w'.readings ≡ w.clock w.readings)
        × (create (record_of id (def_name d) d.version payload) w' ≡ (ok tt, v))
  unfolding submit
  submit-eq-ok request given id payload w v marshals h = elim (Bool-cases (is_empty given)) [
    | inl empty ↦
        (record w { generated = suc w.generated }, refl, ground (arith, empty, marshals, h))
    | inr some_id ↦ (w, refl, ground (arith, some_id, marshals, h))
  ]

  submit-marshals :
      (request : R) (given id : Text) (w v : World)
      → submit RequestJson d request given w ≡ (ok id, v)
      → (payload : Text) × (RequestJson.marshal request ≡ some payload)
  unfolding submit
  submit-marshals request given id w v h = elim (Option-cases (RequestJson.marshal request)) [
    | inl e ↦ absurd (ground arith)
    | inr some_payload ↦ some_payload
  ]

  -- A workflow that was submitted is running while its lease is held, and pending otherwise, as long as
  -- the tables are as `Submit` left them and the query succeeds. The clock of the store was before the
  -- year 10000.
  status-submit :
      (request : R) (given id : Text) (w v u : World)
      → IsFourDigit (w.clock w.readings)
      → submit RequestJson d request given w ≡ (ok id, v)
      → u.tables ≡ v.tables
      → u.driver u.calls ≡ none
      → (status id u).0 ≡ ok (if contains id u.leases then running else pending)
  unfolding status derive_status
  status-submit request given id w v u year submitted same succeeds =
      let (payload, marshals) = submit-marshals request given id w v submitted in
      let (w', clock, made) = submit-eq-ok request given id payload w v marshals submitted in
      let stored =
        get-create (record_of id (def_name d) d.version payload) w' v u zero-IsFourDigit
          (rw clock year) made same succeeds in
      ground (arith, stored)
