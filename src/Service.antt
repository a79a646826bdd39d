-- ===== src/Service.antt =====
-- What the daemon does for the controller and for its clients: the storage, the counter sync and the
-- requests over IPC (desktop/daemon/src/sync.rs, ipc_handlers.rs; desktop/crates/opad-storage/src).
pub mod Store
pub mod Link
pub mod Sync
pub mod Requests
mod Tests
