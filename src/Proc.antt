-- ===== src/Proc.antt =====
-- Processes, services and threads, kernel/src/proc.
pub mod Process
pub mod Sched
mod Tests
