-- ===== src/Sqlite/Workflows.antt =====
-- The operations of sqlite/sqlite.go on the table `workflows`.
use flicker.Prelude.{
  ℕ, ◌+◌, Bool, ◌&&◌, ◌||◌, not, List, [], ◌∷◌, ◌++◌, Option, none, some, Text, codes, text_eq,
  text_le, is_empty, filter, find?, count_where, map_where, take, ◌==◌, if◌then◌else◌,
}
use flicker.Time.{Time, format_time}
use flicker.Errors.{Error, plain, quote, no_rows}
use flicker.Records.{
  Status, Signal, WorkflowRecord, pending, suspended, is_unset, is_pending, is_suspended,
}
use flicker.World.{
  WorkflowRow, Exec, pure, raise, lift, gets, wrapping, modify_tables, now, call, ◌>>=◌, ◌>>◌,
}
use flicker.Sqlite.Scan.{scan_workflow, scan_all, rows_affected, check_rows_affected}

-- `UPDATE workflows SET … WHERE …`; the result is the number of rows that the test selects.
unfoldable pub update_workflows : (WorkflowRow → Bool) → (WorkflowRow → WorkflowRow) → Exec ℕ
unfolding count_where map_where
update_workflows where' set' = do
  n ← gets (λ w. count_where where' w.tables.workflows)
  modify_tables (λ t. record t { workflows = map_where where' set' t.workflows })
  pure n

abbrev pub has_id : Text → WorkflowRow → Bool
has_id id r = text_eq r.id id

-- `WHERE id = ? AND occ_version = ?`.
abbrev pub at_version : Text → ℕ → WorkflowRow → Bool
at_version id occ_version r = text_eq r.id id && r.occ_version == occ_version

-- The insert fails where the primary key is taken.
unfoldable pub insert_workflow : WorkflowRow → Exec (Unit {0})
unfolding find?
insert_workflow row = do
  old ← gets (λ w. find? (has_id row.id) w.tables.workflows)
  elim old [
    | none ↦ modify_tables (λ t. record t { workflows = t.workflows ++ (row ∷ []) })
    | some other ↦ raise (plain (codes "UNIQUE constraint failed: workflows.id"))
  ]

unfoldable pub create : WorkflowRecord → Exec (Unit {0})
unfolding now call insert_workflow
create r = do
  t ← now
  wrapping (codes "insert workflow") (
      call
      >> insert_workflow (record {
        id = r.id;
        type = r.type;
        version = r.version;
        status = if is_unset r.status then pending else r.status;
        signal = r.signal;
        payload = r.payload;
        result = r.result;
        error = r.error;
        retry_after = format_time r.retry_after;
        attempts = r.attempts;
        occ_version = 1;
        created_at = format_time t;
        updated_at = format_time t;
      }))

abbrev found {ℓ} : {A : Type ℓ} → Error → Option A → Exec A
found e none = raise e
found e (some a) = pure a

unfoldable pub get : Text → Exec WorkflowRecord
unfolding call find? scan_workflow
get id = do
  row ←
      wrapping (codes "scan workflow")
        (do call; row ← gets (λ w. find? (has_id id) w.tables.workflows); found no_rows row)
  lift (scan_workflow row)

-- `occ_version = occ_version + 1, updated_at = ?` beside the columns that `set'` gives; the
-- expressions of a `SET` clause read the old row.
abbrev pub versioned : Time → (WorkflowRow → WorkflowRow) → WorkflowRow → WorkflowRow
versioned t set' r = record (set' r) {
  id = r.id;
  occ_version = r.occ_version + 1;
  updated_at = format_time t;
}

-- The statement that `UpdateStatus`, `SetError`, `SetRetry` and `Suspend` share: the columns that
-- `set'` gives, at the time of the write, and a raised version, where the version is the expected one.
unfoldable pub update_versioned : Text → Text → ℕ → (WorkflowRow → WorkflowRow) → Exec (Unit {0})
unfolding now call update_workflows check_rows_affected
update_versioned what id occ_version set' = do
  t ← now
  wrapping what call
  n ← update_workflows (at_version id occ_version) (versioned t set')
  check_rows_affected n

unfoldable pub update_status : Text → Status → Option Text → ℕ → Exec (Unit {0})
update_status id status result occ_version =
    update_versioned (codes "update status") id occ_version
      (λ r. record r { status = status; result = result })

unfoldable pub set_error : Text → Status → Text → ℕ → Exec (Unit {0})
set_error id status message occ_version =
    update_versioned (codes "set error") id occ_version
      (λ r. record r { status = status; error = message })

unfoldable pub set_retry : Text → Time → ℕ → Exec (Unit {0})
set_retry id retry_after occ_version = update_versioned (codes "set retry") id occ_version (λ r.
    record r { status = pending; retry_after = format_time retry_after; attempts = r.attempts + 1 })

unfoldable pub suspend : Text → Time → ℕ → Exec (Unit {0})
suspend id resume_at occ_version =
    update_versioned (codes "suspend") id occ_version
      (λ r. record r { status = suspended; retry_after = format_time resume_at })

-- `status = 'suspended' AND retry_after != '' AND retry_after <= ?`.
abbrev pub is_due : Time → WorkflowRow → Bool
is_due t r =
    is_suspended r.status && not (is_empty r.retry_after) && text_le r.retry_after (format_time t)

-- The `SET` clause that the three promotions share.
abbrev pub promoted : Time → WorkflowRow → WorkflowRow
promoted t r = record r {
  status = pending;
  retry_after = [];
  occ_version = r.occ_version + 1;
  updated_at = format_time t;
}

unfoldable pub promote_suspended : Time → Exec ℕ
unfolding call update_workflows
promote_suspended t = do
  wrapping (codes "promote suspended") call
  n ← update_workflows (is_due t) (promoted t)
  rows_affected n

-- `status = 'pending' AND (retry_after = '' OR retry_after <= ?)`.
abbrev pub is_schedulable : Time → WorkflowRow → Bool
is_schedulable t r =
    is_pending r.status && (is_empty r.retry_after || text_le r.retry_after (format_time t))

-- `ORDER BY created_at ASC`, which keeps the order of the table among equals.
unfoldable pub insert_by {ℓ} : {A : Type ℓ} → (A → Text) → A → List A → List A
insert_by key x [] = x ∷ []
insert_by key x (y ∷ ys) =
    let rest = insert_by key x ys in if text_le (key x) (key y) then x ∷ y ∷ ys else y ∷ rest

unfoldable pub order_by {ℓ} : {A : Type ℓ} → (A → Text) → List A → List A
unfolding insert_by
order_by key [] = []
order_by key (x ∷ xs) = insert_by key x (order_by key xs)

unfoldable pub select_schedulable : ℕ → Time → List WorkflowRow → List WorkflowRow
unfolding filter order_by
select_schedulable limit t rows =
    take limit (order_by (λ r. r.created_at) (filter (is_schedulable t) rows))

unfoldable pub list_schedulable : ℕ → Exec (List WorkflowRecord)
unfolding now call select_schedulable scan_all scan_workflow
list_schedulable limit = do
  t ← now
  wrapping (codes "list schedulable") call
  rows ← gets (λ w. select_schedulable limit t w.tables.workflows)
  lift (scan_all scan_workflow rows)

abbrev the_signal : WorkflowRow → Signal
the_signal r = r.signal

unfoldable pub get_signal : Text → Exec Signal
unfolding call find?
get_signal id = wrapping (codes "get signal") (do
  call
  row ← gets (λ w. find? (has_id id) w.tables.workflows)
  r ← found no_rows row
  pure (the_signal r))

unfoldable pub set_signal : Text → Signal → Exec (Unit {0})
unfolding now call update_workflows
set_signal id signal = do
  t ← now
  wrapping (codes "set signal") call
  n ← update_workflows (has_id id) (λ r. record r { signal = signal; updated_at = format_time t })
  affected ← rows_affected n
  if affected == 0
      then raise (plain (codes "workflow " ++ (quote id ++ codes " not found")))
      else pure tt
