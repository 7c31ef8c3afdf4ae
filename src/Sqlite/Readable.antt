-- ===== src/Sqlite/Readable.antt =====
-- The rows that `scanWorkflow` of sqlite/sqlite.go can read, and the operations that write them.
use flicker.Prelude.{arith, codes, ◌≡◌, refl, Bool, List, [], ◌∷◌, ◌++◌, Text, map_where, All}
use flicker.Time.{Time, format_time}
use flicker.Time.Order.{IsFourDigit}
use flicker.Errors.{ok}
use flicker.Records.{WorkflowRecord}
use flicker.World.{WorkflowRow}
use flicker.Sqlite.Scan.{time_or_zero, scan_workflow, scan_all}
use flicker.Sqlite.RoundTrip.{time_or_zero-format_time}
use flicker.Sqlite.Workflows.{promoted}

-- A column that reads as a time, and a row whose three time columns do.
abbrev pub Reads : Text → Type 0
Reads raw = (what : Text) → (t : Time) × (time_or_zero what raw ≡ ok t)

pub record IsReadable (r : WorkflowRow) : Type 0 where
  pub retry_after : Reads r.retry_after
  pub created_at : Reads r.created_at
  pub updated_at : Reads r.updated_at

pub format_time-Reads : (t : Time) → IsFourDigit t → Reads (format_time t)
format_time-Reads t y what = (t, time_or_zero-format_time what t y)

pub no_time-Reads : Reads []
unfolding time_or_zero
no_time-Reads what = (0, refl)

pub promoted-IsReadable :
    (t : Time) (r : WorkflowRow) → IsFourDigit t → IsReadable r → IsReadable (promoted t r)
promoted-IsReadable t r y h = record {
  retry_after = no_time-Reads;
  created_at = h.created_at;
  updated_at = format_time-Reads t y;
}

pub All-map_where :
    {A : Type 0} (P : A → Type 0) (p : A → Bool) (s : A → A)
    → ((a : A) → P a → P (s a))
    → (xs : List A) → All P xs
    → All P (map_where p s xs)
unfolding map_where
All-map_where P p s h [] k = tt
All-map_where P p s h (x ∷ xs) k = ground (arith, h x k.0, k.0, All-map_where P p s h xs k.1)

pub All-append :
    {A : Type 0} (P : A → Type 0) (xs : List A) (y : A) → All P xs → P y → All P (xs ++ (y ∷ []))
All-append P [] y h p = (p, tt)
All-append P (x ∷ xs) y h p = (h.0, All-append P xs y h.1 p)

pub promoted-All :
    (p : WorkflowRow → Bool) (t : Time) (rows : List WorkflowRow)
    → IsFourDigit t
    → All IsReadable rows
    → All IsReadable (map_where p (promoted t) rows)
promoted-All p t rows y =
    All-map_where IsReadable p (promoted t) (λ r. promoted-IsReadable t r y) rows

abbrev scanned : WorkflowRow → Time → Time → Time → WorkflowRecord
scanned r retry_after created_at updated_at = record {
  id = r.id;
  type = r.type;
  version = r.version;
  status = r.status;
  signal = r.signal;
  payload = r.payload;
  result = r.result;
  error = r.error;
  retry_after = retry_after;
  attempts = r.attempts;
  occ_version = r.occ_version;
  created_at = created_at;
  updated_at = updated_at;
}

-- A row whose columns read is scanned.
pub scan_workflow_of_IsReadable :
    (r : WorkflowRow)
    → IsReadable r
    → (x : WorkflowRecord) × (scan_workflow r ≡ ok x) × (x.id ≡ r.id)
unfolding scan_workflow
scan_workflow_of_IsReadable r h =
    let (a, ea) = h.retry_after (codes "retry_after") in
    let (b, eb) = h.created_at (codes "created_at") in
    let (c, ec) = h.updated_at (codes "updated_at") in
    (scanned r a b c, rw ea (rw eb (rw ec refl)), refl)

pub scan_all_of_IsReadable :
    (rows : List WorkflowRow)
    → All IsReadable rows
    → (xs : List WorkflowRecord) × (scan_all scan_workflow rows ≡ ok xs)
unfolding scan_all
scan_all_of_IsReadable [] h = ([], refl)
scan_all_of_IsReadable (r ∷ rs) h =
    let (x, e, same) = scan_workflow_of_IsReadable r h.0 in
    let (xs, es) = scan_all_of_IsReadable rs h.1 in (x ∷ xs, rw e (rw es refl))
