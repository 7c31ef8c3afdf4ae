-- ===== src/Sqlite/RoundTrip.antt =====
-- `Get` after `Create` in sqlite/sqlite.go.
use flicker.Prelude.{
  zero, suc, ◌≡◌, refl, ap, ◌∙◌, [], ◌∷◌, ◌++◌, none, some, Option-cases, inl, inr, arith, Text,
  text_eq_refl, find?, find?-append, if◌then◌else◌,
}
use flicker.Time.{Time, format_time}
use flicker.Time.Order.{IsFourDigit}
use flicker.Time.RoundTrip.{parse_time-format_time}
use flicker.Errors.{ok}
use flicker.Records.{WorkflowRecord, is_unset, pending}
use flicker.World.{World, WorkflowRow}
use flicker.Sqlite.Scan.{time_or_zero, scan_workflow}
use flicker.Sqlite.Promotion.{is_empty-format_time}
use flicker.Sqlite.Workflows.{has_id, create, get}

format_time_of_zero : format_time 0 ≡ []
unfolding format_time
format_time_of_zero = refl

-- A time column, the zero time included, is read back as it was written.
pub time_or_zero-format_time :
    (what : Text) (t : Time) → IsFourDigit t → time_or_zero what (format_time t) ≡ ok t
unfolding time_or_zero
time_or_zero-format_time what zero y = rw format_time_of_zero refl
time_or_zero-format_time what (suc t) y = ground (
  arith,
  is_empty-format_time (suc t) (omega arith) y,
  parse_time-format_time (suc t) (omega arith) y,
)

-- The record that `Create` stores.
abbrev pub created : WorkflowRecord → Time → WorkflowRecord
created r t = record r {
  status = if is_unset r.status then pending else r.status;
  occ_version = 1;
  created_at = t;
  updated_at = t;
}

abbrev pub row_of_record : WorkflowRecord → Time → WorkflowRow
row_of_record r t = record {
  id = r.id;
  type = r.type;
  version = r.version;
  status = if is_unset r.status then pending else r.status;
  signal = r.signal;
  payload = r.payload;
  result = r.result;
  error = r.error;
  retry_after = format_time r.retry_after;
  attempts = r.attempts;
  occ_version = 1;
  created_at = format_time t;
  updated_at = format_time t;
}

create-eq-ok :
    (r : WorkflowRecord) (w v : World)
    → create r w ≡ (ok tt, v)
    → find? (has_id r.id) v.tables.workflows ≡ some (row_of_record r (w.clock w.readings))
unfolding create find?
create-eq-ok r w v h = elim (Option-cases (find? (has_id r.id) w.tables.workflows)) [
  | inl fresh ↦
      let rows : v.tables.workflows
          ≡ w.tables.workflows ++ (row_of_record r (w.clock w.readings) ∷ []) =
        ground arith in
      ap (find? (has_id r.id)) rows
      ∙ (rw
          (
            find?-append (has_id r.id) w.tables.workflows
                (row_of_record r (w.clock w.readings) ∷ []),
            fresh,
          )
          (rw (text_eq_refl r.id)))
  | inr (x, taken) ↦ absurd (ground arith)
]

scan_workflow-row_of_record :
    (r : WorkflowRecord) (t : Time)
    → IsFourDigit r.retry_after
    → IsFourDigit t
    → scan_workflow (row_of_record r t) ≡ ok (created r t)
unfolding scan_workflow
scan_workflow-row_of_record r t yr yt =
    rw (time_or_zero-format_time _ r.retry_after yr)
      (rw (time_or_zero-format_time _ t yt) (rw (time_or_zero-format_time _ t yt) refl))

-- A workflow that was created is what `Get` returns for its identifier, as long as the tables are as
-- `Create` left them and the query succeeds: the record that was given, pending if it had no status, at
-- version 1, with the time of the creation. The times lie before the year 10000.
pub get-create :
    (r : WorkflowRecord) (w v u : World)
    → IsFourDigit r.retry_after
    → IsFourDigit (w.clock w.readings)
    → create r w ≡ (ok tt, v)
    → u.tables ≡ v.tables
    → u.driver u.calls ≡ none
    → get r.id u ≡ (ok (created r (w.clock w.readings)), record u { calls = suc u.calls })
unfolding get
get-create r w v u yr yt made same succeeds =
    let found = ap (λ t. find? (has_id r.id) t.workflows) same ∙ create-eq-ok r w v made in
    ground (arith, found, succeeds, scan_workflow-row_of_record r (w.clock w.readings) yr yt)
