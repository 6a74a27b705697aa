-- ===== src/Config.antt =====
-- config: paths and their checks, and the profile (src/config/domain).
pub mod Path
pub mod Validation
pub mod Containment
pub mod Profile
