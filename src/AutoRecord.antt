-- ===== src/AutoRecord.antt =====
-- frontend/miniapp/miniprogram/utils/autoRecord.ts: automatic recording of the places where the
-- user stays. `State` is the file's module-level variables with the stored values that they mirror.
pub mod Floats
pub mod State
pub mod Timers
pub mod Tracker
pub mod Reports
pub mod Lifecycle
pub mod Restore
pub mod Position
mod Tests
