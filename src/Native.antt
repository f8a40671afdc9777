-- ===== src/Native.antt =====
-- packages/context-gateway/src/native: the sessions of the isolated Claude GUI, with their state
-- machine, their lock, and the sweep that finishes sessions whose owner died.
mod Tests
pub mod State
pub mod Lifecycle
pub mod Lock
pub mod Settings
pub mod SettingsFile
pub mod Cleanup
pub mod Recovery
