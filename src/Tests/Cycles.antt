-- ===== src/Tests/Cycles.antt =====
-- A sleeping workflow that a tick and a poll dispatch, a few writes to an empty store, and a few calls
-- of the lease store, and a workflow that was dispatched twice.
use flicker.Prelude.{
  ◌+◌, ◌*◌, ◌≡◌, refl, true, false, length, Text, find?, text_eq, List, [], ◌∷◌, arith,
}
use flicker.Time.{Time, second, format_time}
use flicker.Time.Order.{IsFourDigit}
use flicker.Time.Calendar.{date_of, days_in}
use flicker.Errors.{ok}
use flicker.Records.{WorkflowRecord, suspended}
use flicker.World.{WorkflowRow, World}
use flicker.Sqlite.Scan.{scan_workflow, scan_all}
use flicker.Sqlite.Readable.{IsReadable, format_time-Reads}
use flicker.Sqlite.Writes.{StoreWrite, creates, suspends, promotes, after_all, writes_readable}
use flicker.Engine.{promotion_cycle, poll}
use flicker.Engine.Dispatch.{dispatches, sleeper_dispatched}
use flicker.Leases.{contains}
use flicker.Leases.Refines.{
  LeaseCall, acquires, releases, asks, performed, specified, Represents, performed-Represents,
}
use flicker.Engine.Start.{
  EngineState, engine_start, dispatch, begin_run, Reachable, starts, goes, ticks, begins, stops,
  Returned,
}
use flicker.Engine.Start.Drain.{Goes, drain_finishes}
use flicker.Engine.Start.Exclusive.{Distinct, executed_exclusively}
use flicker.Tests.Data.{noon, noon-IsFourDigit, order_id, order_row, order_record, start, world_of}

-- Noon of the second day and of the third.
abbrev next_noon : Time
next_noon = noon + 86400 * second

abbrev late : Time
late = next_noon + 86400 * second

next_noon-IsFourDigit : IsFourDigit next_noon
unfolding date_of days_in
next_noon-IsFourDigit = omega arith

late-IsFourDigit : IsFourDigit late
unfolding date_of days_in
late-IsFourDigit = omega arith

abbrev sleeper : WorkflowRow
sleeper = record (order_row suspended (format_time next_noon)) {
  created_at = format_time noon;
  updated_at = format_time noon;
}

abbrev sleeping : World
sleeping =
    record (world_of (record { workflows = sleeper ∷ []; step_results = []; subscriptions = [] })) {
      clock = λ n. late;
    }

sleeper-IsReadable : IsReadable sleeper
sleeper-IsReadable = record {
  retry_after = format_time-Reads next_noon next_noon-IsFourDigit;
  created_at = format_time-Reads noon noon-IsFourDigit;
  updated_at = format_time-Reads noon noon-IsFourDigit;
}

sleeper_dispatched_example :
    ((promotion_cycle sleeping).0 ≡ true)
    × (dispatches order_id (poll 10 (promotion_cycle sleeping).1).0 ≡ true)
unfolding find? text_eq
sleeper_dispatched_example =
    sleeper_dispatched sleeping (λ n. refl) order_id sleeper next_noon 10 (λ n. late-IsFourDigit)
      (sleeper-IsReadable, tt) refl refl refl (omega arith) next_noon-IsFourDigit (omega arith)
      (λ e. absurd (omega (arith, e))) (omega arith)

abbrev writes : List StoreWrite
writes = creates (order_record 0) ∷ suspends order_id next_noon 1 ∷ promotes late ∷ []

abbrev empty : World
empty = world_of (record { workflows = []; step_results = []; subscriptions = [] })

writes_readable_example :
    (xs : List WorkflowRecord) × (scan_all scan_workflow (after_all writes empty).tables.workflows
      ≡ ok xs)
unfolding date_of days_in
writes_readable_example =
    writes_readable writes empty (λ n. noon-IsFourDigit) refl
      (omega arith, (next_noon-IsFourDigit, (late-IsFourDigit, tt)))

abbrev lease_calls : List LeaseCall
lease_calls = acquires order_id ∷ acquires order_id ∷ releases order_id ∷ asks order_id ∷ []

performed-Represents_example :
    ((performed lease_calls start).0 ≡ (specified lease_calls (λ x. false)).0)
    × Represents (performed lease_calls start).1 (specified lease_calls (λ x. false)).1
unfolding contains
performed-Represents_example = performed-Represents lease_calls start (λ x. false) (λ x. refl)

-- One workflow was dispatched twice, and two workers have begun.
abbrev twice : EngineState
twice = dispatch (order_record 0 ∷ order_record 0 ∷ []) engine_start

abbrev begun : EngineState
begun = begin_run (order_record 0) (order_record 0 ∷ []) twice

abbrev both_begun : EngineState
both_begun = begin_run (order_record 0) [] begun

both_begun-Reachable : Reachable both_begun
unfolding dispatch contains text_eq
both_begun-Reachable =
    goes begun both_begun
      (goes twice begun
        (goes engine_start twice starts
          (ticks engine_start (order_record 0 ∷ order_record 0 ∷ []) refl))
        (begins twice [] (order_record 0 ∷ []) (order_record 0) refl))
      (begins begun [] [] (order_record 0) refl)

executed_exclusively_example :
    Distinct both_begun.executing
    × ((x : Text) → contains x both_begun.leases ≡ contains x both_begun.executing)
    × (both_begun.in_flight ≡ length both_begun.submitted + length both_begun.executing)
executed_exclusively_example = executed_exclusively both_begun both_begun-Reachable

-- The scheduler has returned while both tasks wait.
abbrev stopped_twice : EngineState
stopped_twice = record twice { stopped = true }

drain_finishes_example : (t : EngineState) × Goes stopped_twice t × Returned t
unfolding dispatch
drain_finishes_example =
    drain_finishes stopped_twice
      (goes twice stopped_twice
        (goes engine_start twice starts
          (ticks engine_start (order_record 0 ∷ order_record 0 ∷ []) refl))
        (stops twice))
      refl
