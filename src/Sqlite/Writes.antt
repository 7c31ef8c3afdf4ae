-- ===== src/Sqlite/Writes.antt =====
-- Sequences of the calls of sqlite/sqlite.go that write the table `workflows`.
use flicker.Prelude.{ℕ, arith, subst, sym, ◌≡◌, refl, List, [], ◌∷◌, Option, Text, All}
use flicker.Time.{Time, format_time}
use flicker.Time.Order.{IsFourDigit}
use flicker.Errors.{ok}
use flicker.Records.{WorkflowRecord, Status, Signal}
use flicker.World.{WorkflowRow, World}
use flicker.Sqlite.Scan.{scan_workflow, scan_all}
use flicker.Sqlite.RoundTrip.{row_of_record}
use flicker.Sqlite.Workflows.{
  insert_workflow, has_id, at_version, create, versioned, update_versioned, update_status,
  set_error, set_retry, suspend, set_signal, is_due, promote_suspended,
}
use flicker.Sqlite.Events.{is_suspended_workflow, resume_subscription, time_out_subscriptions}
use flicker.Sqlite.Kept.{
  Kept, promote_suspended-Kept, resume_subscription-Kept, time_out_subscriptions-Kept,
}
use flicker.Sqlite.Readable.{
  Reads, IsReadable, format_time-Reads, promoted-All, All-map_where, All-append,
  scan_all_of_IsReadable,
}

-- A call of the store that writes a row of the table `workflows`, and the times that it is given.
pub data StoreWrite : Type 0 where
  creates : WorkflowRecord → StoreWrite
  updates_status : Text → Status → Option Text → ℕ → StoreWrite
  sets_error : Text → Status → Text → ℕ → StoreWrite
  sets_retry : Text → Time → ℕ → StoreWrite
  suspends : Text → Time → ℕ → StoreWrite
  sets_signal : Text → Signal → StoreWrite
  promotes : Time → StoreWrite
  resumes_subscription : Text → Text → StoreWrite
  times_out_subscriptions : Time → StoreWrite

abbrev pub InRange : StoreWrite → Type 0
InRange (creates r) = IsFourDigit r.retry_after
InRange (sets_retry id t n) = IsFourDigit t
InRange (suspends id t n) = IsFourDigit t
InRange (promotes t) = IsFourDigit t
InRange (times_out_subscriptions t) = IsFourDigit t
InRange _ = Unit

-- The world after the call, whether it succeeds or fails.
abbrev pub after : StoreWrite → World → World
after (creates r) w = (create r w).1
after (updates_status id s result n) w = (update_status id s result n w).1
after (sets_error id s message n) w = (set_error id s message n w).1
after (sets_retry id t n) w = (set_retry id t n w).1
after (suspends id t n) w = (suspend id t n w).1
after (sets_signal id s) w = (set_signal id s w).1
after (promotes t) w = (promote_suspended t w).1
after (resumes_subscription key payload) w = (resume_subscription key payload w).1
after (times_out_subscriptions t) w = (time_out_subscriptions t w).1

abbrev pub after_all : List StoreWrite → World → World
after_all [] w = w
after_all (o ∷ os) w = after_all os (after o w)

module _ (c : ℕ → Time) (d : ℕ → Option Text) (years : (n : ℕ) → IsFourDigit (c n)) where
  abbrev Readable : World → Type 0
  Readable = Kept (All IsReadable) IsFourDigit c d years

  -- Columns that an update leaves alone read as before, and the time of the update reads.
  versioned-IsReadable :
      (t : Time) (set' : WorkflowRow → WorkflowRow) (r : WorkflowRow)
      → IsFourDigit t
      → Reads (set' r).retry_after
      → Reads (set' r).created_at
      → IsReadable (versioned t set' r)
  versioned-IsReadable t set' r y again since = record {
    retry_after = again;
    created_at = since;
    updated_at = format_time-Reads t y;
  }

  update_versioned-Readable :
      (what id : Text) (n : ℕ) (set' : WorkflowRow → WorkflowRow) (w : World)
      → ((r : WorkflowRow) → IsReadable r → Reads (set' r).retry_after × Reads (set' r).created_at)
      → Readable w
      → Readable (update_versioned what id n set' w).1
  unfolding update_versioned
  update_versioned-Readable what id n set' w h k =
      let y : IsFourDigit (w.clock w.readings) =
        subst (λ f. IsFourDigit (f w.readings)) (sym k.1) (years w.readings) in
      ground (
        arith,
        k,
        All-map_where IsReadable (at_version id n) (versioned (w.clock w.readings) set')
            (λ r a. versioned-IsReadable (w.clock w.readings) set' r y (h r a).0 (h r a).1)
            w.tables.workflows k.0,
      )

  years_of : (w : World) → Readable w → IsFourDigit (w.clock w.readings)
  years_of w k = subst (λ f. IsFourDigit (f w.readings)) (sym k.1) (years w.readings)

  create-Readable :
      (r : WorkflowRecord) (w : World)
      → IsFourDigit r.retry_after
      → Readable w
      → Readable (create r w).1
  unfolding create insert_workflow
  create-Readable r w y k = ground (
    arith,
    k,
    All-append IsReadable w.tables.workflows (row_of_record r (w.clock w.readings)) k.0 (record {
      retry_after = format_time-Reads r.retry_after y;
      created_at = format_time-Reads (w.clock w.readings) (years_of w k);
      updated_at = format_time-Reads (w.clock w.readings) (years_of w k);
    }),
  )

  set_signal-Readable :
      (id : Text) (s : Signal) (w : World) → Readable w → Readable (set_signal id s w).1
  unfolding set_signal
  set_signal-Readable id s w k = ground (
    arith,
    k,
    All-map_where IsReadable (has_id id)
        (λ r. record r { signal = s; updated_at = format_time (w.clock w.readings) })
        (λ r h. record {
          retry_after = h.retry_after;
          created_at = h.created_at;
          updated_at = format_time-Reads (w.clock w.readings) (years_of w k);
        })
        w.tables.workflows k.0,
  )

  after-Readable : (o : StoreWrite) (w : World) → InRange o → Readable w → Readable (after o w)
  unfolding update_status set_error set_retry suspend
  after-Readable (creates r) w y k = create-Readable r w y k
  after-Readable (updates_status id s result n) w y k =
      update_versioned-Readable _ id n _ w (λ r h. (h.retry_after, h.created_at)) k
  after-Readable (sets_error id s message n) w y k =
      update_versioned-Readable _ id n _ w (λ r h. (h.retry_after, h.created_at)) k
  after-Readable (sets_retry id t n) w y k =
      update_versioned-Readable _ id n _ w (λ r h. (format_time-Reads t y, h.created_at)) k
  after-Readable (suspends id t n) w y k =
      update_versioned-Readable _ id n _ w (λ r h. (format_time-Reads t y, h.created_at)) k
  after-Readable (sets_signal id s) w y k = set_signal-Readable id s w k
  after-Readable (promotes t) w y k =
      promote_suspended-Kept (All IsReadable) IsFourDigit c d years t w y (promoted-All (is_due t))
        k
  after-Readable (resumes_subscription key payload) w y k =
      resume_subscription-Kept (All IsReadable) IsFourDigit c d years
        (λ id. promoted-All (is_suspended_workflow id)) key payload w k
  after-Readable (times_out_subscriptions t) w y k =
      time_out_subscriptions-Kept (All IsReadable) IsFourDigit c d years
        (λ id. promoted-All (is_suspended_workflow id)) t w y k

  after_all-Readable :
      (os : List StoreWrite) (w : World) → All InRange os → Readable w → Readable (after_all os w)
  after_all-Readable [] w y k = k
  after_all-Readable (o ∷ os) w y k =
      after_all-Readable os (after o w) y.1 (after-Readable o w y.0 k)

-- No row of the table `workflows` becomes unreadable. Whatever calls of the store are made from the
-- empty table on, with times in years of four digits, failing ones included, all rows can be scanned.
pub writes_readable :
    (os : List StoreWrite) (w : World)
    → ((n : ℕ) → IsFourDigit (w.clock n))
    → w.tables.workflows ≡ []
    → All InRange os
    → (xs : List WorkflowRecord) × (scan_all scan_workflow (after_all os w).tables.workflows
        ≡ ok xs)
writes_readable os w years empty y =
    scan_all_of_IsReadable (after_all os w).tables.workflows
      (after_all-Readable w.clock w.driver years os w y (rw empty tt, refl, refl)).0
