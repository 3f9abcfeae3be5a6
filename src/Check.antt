-- ===== src/Check.antt =====
-- The package internal/check: what the built-in checks report of what their probes and connections
-- tell them.
pub mod Floats
pub mod Size
pub mod Local
pub mod Remote
pub mod Linux
mod Tests
pub mod Pace
pub mod Darwin
