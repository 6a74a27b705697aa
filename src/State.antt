-- ===== src/State.antt =====
-- src/state: the status of a run, projected from its events.
pub mod RunStatus
pub mod Serialization
pub mod EventData
pub mod StatusBuilder
pub mod Status
pub mod Valid
pub mod Publication
pub mod Projection
pub mod Monotone
pub mod Percent
pub mod Attribution
