-- ===== src/Tasks.antt =====
-- internal/tasks: background tasks, and their schedule.
pub mod Queue
pub mod Cron
