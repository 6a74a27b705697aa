-- ===== src/Provisioning.antt =====
-- src/provisioning: the plan of a device preparation, how it is built, and the check before it.
pub mod Topology
pub mod Plan
pub mod Inspector
pub mod Approval
pub mod Safety
pub mod Builder
pub mod Layout
pub mod Erasure
