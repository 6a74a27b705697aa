-- ===== src/Core.antt =====
-- core: error codes, exceptions, identifiers and time stamps (src/core).
pub mod ErrorCode
pub mod Errors
pub mod Identifiers
pub mod Calendar
pub mod Time
