-- ===== src/Tests.antt =====
-- Concrete worlds, and the theorems applied to them.
mod Data
mod Steps
mod Store
mod Runs
mod Contract
mod Workflows
mod Cycles
mod System
mod Branches
mod Options
mod Telemetry
