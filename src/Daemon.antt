-- ===== src/Daemon.antt =====
-- The background service (desktop/daemon/src).
pub mod Telemetry
pub mod State
pub mod Events
pub mod Controller
pub mod Step
pub mod Attempts
pub mod Connect
pub mod Device
pub mod Tosu
pub mod Tick
pub mod Dispatch
pub mod Steady
pub mod Writes
pub mod Owner
pub mod Invariant
pub mod Ending
pub mod Hello
mod Tests
