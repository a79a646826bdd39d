-- ===== src/Tap.antt =====
-- The player's tap rate (desktop/crates/opad-model/src/tap_rate.rs).
pub mod Float
pub mod Channel
pub mod Attempt
pub mod Values
pub mod Bounds
pub mod Tests
