-- ===== src/Contract.antt =====
-- contract/: the static analysis that reads the contracts of workflows out of Go source.
pub mod Shape
pub mod GoTypes
pub mod Resolve
pub mod Syntax
pub mod Detect
pub mod Walk
pub mod Scan
