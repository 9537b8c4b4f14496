-- ===== src/Worker.antt =====
-- The Worker: the program that runs coding agents (factory/internal/worker).
pub mod Payload
pub mod Sender
pub mod Manager
pub mod Claiming
mod Examples
