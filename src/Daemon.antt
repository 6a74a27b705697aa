-- ===== src/Daemon.antt =====
-- src/daemon/control: the paging of a browse session.
pub mod ContinuationToken
pub mod PageCollector
