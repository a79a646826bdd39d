-- ===== src/Model.antt =====
-- The shared data model (desktop/crates/opad-model/src): the pad's configuration and its checks,
-- the Hall Effect thresholds, the press counters.
pub mod Keys
pub mod Swipe
pub mod HallEffect
pub mod Animations
pub mod Config
pub mod Backup
pub mod Counters
mod Tests
