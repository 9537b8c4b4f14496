-- ===== src/Cron.antt =====
-- Cron schedules (factory/internal/controlplane/schedule_cron.go).
pub mod Text
pub mod Field
pub mod Next
mod Examples
