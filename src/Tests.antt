-- ===== src/Tests.antt =====
-- Runs of the model at sample inputs.
mod Paths
mod Times
mod Samples
mod Parents
mod Recoveries
mod Retentions
mod Plans
mod Runs
mod Transfers
mod Restores
mod Statuses
mod Preparations
mod Commits
mod Browsing
