-- ===== src/Engine.antt =====
-- internal/engine: admission, configuration, and the handling of each delivery.
pub mod Admit
pub mod Limits
pub mod Assembly
pub mod Arguments
pub mod Handling
pub mod Running
pub mod Release
pub mod System
