-- ===== src/Scheduler.antt =====
-- scheduler/: in-process job scheduling.
pub mod Overlap
pub mod Job
pub mod Engine
pub mod Manager
pub mod Persistence
pub mod Prepare
pub mod Reconcile
pub mod Execution
