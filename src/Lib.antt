-- ===== src/Lib.antt =====
-- Flicker, a durable workflow engine in Go: a workflow is executed again and again until it ends, and
-- its steps keep their results in a database, so that a later execution reads them back.
--
-- The parts, and the files of the repository they model:
--
--   Records   flicker.go and the structs of store.go. A status and a signal are enumerations; the
--             empty text of Go is `unset` and `signal_none`.
--   Errors    errors.go, suspend.go and the errors of sqlite/sqlite.go. An error is its constructor
--             with the error that it wraps; `is_suspend`, `as_permanent` and `is_cancelled` are
--             errors.As along that chain. `fmt.Errorf` with `%w` is `wrapped`, any other text is
--             `plain`.
--   Time      formatTime of sqlite/sqlite.go with the part of package time that it and the scans use:
--             a time is its count of nanoseconds since the start of year 1, UTC. Time/Calendar has the
--             dates, Time/Parse the reader, Time/Order the order of the stored texts and
--             Time/RoundTrip the reader after the writer.
--   World     what the operations share and change: the three tables, the clock, the driver of the
--             database, the generator of identifiers, the names of the steps that the current
--             execution has seen, and the leases. Clock, driver and generator are arbitrary sequences
--             of answers with a counter, so a theorem about a world covers every clock and every
--             failure. One statement of database/sql is one answer of the driver.
--   Sqlite    sqlite/sqlite.go: Sqlite/Scan (scanWorkflow, scanStepResult, checkRowsAffected),
--             Sqlite/Workflows, Sqlite/Steps and Sqlite/Events (the operations on the three tables).
--             A table is the list of its rows; WHERE is a test, SET a function on a row. The proofs:
--             Sqlite/Occ (the versions), Sqlite/Keys (the primary key of step results),
--             Sqlite/Delivery, Sqlite/Promotion, Sqlite/Schedulable (ListSchedulable), Sqlite/RoundTrip and
--             Sqlite/Writes (rows that can be read), with Sqlite/Rows, Sqlite/Replace, Sqlite/Kept and
--             Sqlite/Readable.
--   Leases    lease.go; Leases/Refines states the contract of the interface and has the proof.
--   Context   context.go, the names of steps and scopes; Context/Names has their proofs.
--   Steps     run.go and panic.go. A function of the workflow returns a result or panics. encoding/json
--             is the parameter `Json`. Steps/Durable proves what a step leaves in the table,
--             Steps/Replay how it is read back, and Steps/Resumed what one replayed step leaves for
--             the next.
--   Waits     SleepUntil and WaitForEvent of context.go, provider.go and providers.go; Waits/Resume has
--             the proofs.
--   Parallel  parallel.go; Parallel/Join has the proofs about its result. Parallel/Schedule is its
--             goroutines with their wait group under any scheduler, one call of a branch at a time:
--             Schedule/Outcomes and Schedule/Returns have the proofs, Schedule/InOrder is about the
--             schedule that runs the branches one after another.
--   Runner    runner.go. Runner/Resolve, Runner/Backoff, Runner/Lease and Runner/Prefetch have the
--             proofs. A duration is the bit pattern of its int64, so that the shift of the
--             delay wraps as in Go.
--   Registry  registry.go; Registry/Submit has the proof about a new workflow.
--   Engine    engine.go, trigger.go, one tick of promoter.go and one poll of scheduler.go;
--             Engine/Dispatch has the proof about a tick and the next poll. Engine/Start is
--             `Engine.Start` as transitions of promoters, scheduler and workers in any order, with
--             Start/Exclusive for the leases of the workers. Engine/Options is `NewEngine` with its
--             options and the defaults of newTelemetry of otel.go; Options/Settled reads a list of
--             options without the engine, Options/Order has the proof.
--             Engine/Loops are the loops of promoter.go and scheduler.go, with Loops/Batches for what
--             is dispatched, and Start/Drain is about the end of `Start`.
--   Semconv   semconv/semconv.go.
--   Telemetry otel.go: what the program emits, as a list. Telemetry/Run is run.go and
--             Telemetry/Execution runner.go, engine.go and promoter.go with their emissions, beside
--             Steps, Runner and Engine, which leave telemetry out; Telemetry/Erase relates the two.
--             Telemetry/Balance and Telemetry/Gauge have proofs about spans and counters.
--   System    the database under any number of engines and clients: one transition of System is one
--             call of the store, failing ones included, and Reach any sequence of them. System/Advance,
--             System/Moves and System/Calls are what a call may do to a row, System/Final,
--             System/Once and System/Wakeup have the proofs.
--   Workflows workflows/order/v1 (Workflows/Order) and workflows/greeting/v1 (Workflows/Greeting), as
--             clients of the engine; the HTTP client and the repository are arguments. Their Replay
--             modules have the proofs about a second execution.
--   Fileops   examples/fileops, a client whose branches run in parallel: Fileops and Fileops/Wrangler
--             (workflow.go), Fileops/Config and Fileops/Container (container.go) and Fileops/Bridge
--             (events.go, main.go). The operating system and its commands are the record `Host`.
--             Wrangler/Gather, Wrangler/Labels and Container/Once have the proofs.
--   Contract  contract/: Contract/Shape (contract.go), Contract/Resolve (resolve.go), Contract/Detect
--             (detect.go), Contract/Walk (walk.go) and Contract/Scan (scan.go). Contract/GoTypes and
--             Contract/Syntax are the Go types and the syntax trees that the analysis reads, with
--             `ast.Inspect`; a named type is a number, its identity. packages.Load and sort.Slice are
--             arguments. Resolve/Termination, Resolve/Fuel, Resolve/Shaped, Detect/Preorder,
--             Detect/Defines, Detect/Factory, Detect/Execute, Walk/Dynamic, Walk/Names, Walk/Embedded and
--             Scan/Complete have the proofs.
--   Tests     concrete worlds and a package to analyse, and the theorems at them.
--
-- A client calls `Steps.run`, which asks the store for the signal and the result of the step; the
-- runner calls the workflow under a lease and writes its outcome with the version that it read; the
-- promoter and `SendEvent` set suspended workflows to pending; the scheduler hands pending ones to the
-- runner.
-- Loops run over a list, a tree or, in Time/Calendar, over days. Two recursions take fuel: the digits
-- of a number, the number plus one, which is more than the digits that it has; and the shape of a named
-- Go type, one more than there are named types, which is enough since a type on the way down is not
-- entered again.
--
-- Not modelled: logging, the values of the histograms, the worker pool (pool.go, a wrapper of a
-- library), the opening of the database, the handlers of the HTTP server, the named pipe, Close and main
-- of examples/fileops, cmd/flicker, which prints one line, and cancellation of a Go context. Texts are
-- lists of bytes. The branches of the example and of the theorems about executions run one after another.
pub mod Prelude
pub mod Time
pub mod Errors
pub mod Records
pub mod World
pub mod Sqlite
pub mod Leases
pub mod Context
pub mod Steps
pub mod Waits
pub mod Parallel
pub mod Runner
pub mod Registry
pub mod Semconv
pub mod Telemetry
pub mod Engine
pub mod Workflows
pub mod Contract
pub mod System
pub mod Fileops
pub mod Tests
