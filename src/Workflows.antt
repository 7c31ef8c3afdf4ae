-- ===== src/Workflows.antt =====
-- workflows/: two programs that are written against the engine.
pub mod Order
pub mod Greeting
