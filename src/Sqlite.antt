-- ===== src/Sqlite.antt =====
-- sqlite/sqlite.go: the store over SQLite. `Scan` reads rows, `Workflows`, `Steps` and `Events` hold
-- the operations on the three tables. The other modules hold the theorems.
pub mod Scan
pub mod Workflows
pub mod Steps
pub mod Events
pub mod Rows
pub mod Keys
pub mod Replace
pub mod Occ
pub mod Delivery
pub mod Promotion
pub mod Schedulable
pub mod RoundTrip
pub mod Kept
pub mod Readable
pub mod Writes
