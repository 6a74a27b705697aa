-- ===== src/Backup.antt =====
-- backup: the model of snapshots, the plan of a run and its execution (src/backup).
pub mod Snapshot
pub mod Parent
pub mod Retention
pub mod Recovery
pub mod Actions
pub mod RunPlan
pub mod Events
pub mod Execution
pub mod Transfer
pub mod SnapshotTransfer
