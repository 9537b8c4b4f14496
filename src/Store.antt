-- ===== src/Store.antt =====
-- The control plane's attempt store (factory/internal/controlplane): its rows, one module for each
-- operation, and the theorems over all of them.
pub mod States
pub mod Rows
pub mod Lease
pub mod Cost
pub mod Start
pub mod Heartbeat
pub mod Stages
pub mod Complete
pub mod Sweep
pub mod Events
pub mod Lockstep
pub mod Fencing
pub mod Steps
mod Examples
