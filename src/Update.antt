-- ===== src/Update.antt =====
-- The updaters' decisions (desktop/crates/opad-update/src).
pub mod Version
pub mod Gate
pub mod Origin
pub mod Manifest
pub mod Rollout
pub mod Schedule
pub mod Client
pub mod Firmware
pub mod Fits
pub mod Tosu
pub mod App
pub mod Blockers
pub mod Offers
pub mod Replay
pub mod Accepted
pub mod Waits
mod Tests
