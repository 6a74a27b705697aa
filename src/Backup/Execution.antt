-- ===== src/Backup/Execution.antt =====
-- src/backup/execution: the run of a plan.
pub mod Calls
pub mod Executor
pub mod Steps
pub mod Progress
pub mod Loops
pub mod Results
