-- ===== src/Restore.antt =====
-- src/restore: bringing back what a snapshot of the repository holds.
pub mod Failure
pub mod Operations
pub mod Plan
pub mod Engine
pub mod Tree
pub mod Staging
pub mod Rollback
pub mod Outcome
pub mod Commit
pub mod Guarantee
pub mod Catalog
