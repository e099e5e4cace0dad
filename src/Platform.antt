-- ===== src/Platform.antt =====
-- The platform's components (src/model/platform).
pub mod Component
pub mod SwitchState
pub mod Backends
pub mod Run
pub mod Tests
