-- ===== src/Daemon/Writes/Saves.antt =====
-- Which event saves a pad's configuration: a connection (desktop/daemon/src/runtime.rs).
use opad.Tap.Float.{Float}
use opad.Daemon.Events
use opad.Daemon.Events.{RuntimeEvent}
use opad.Daemon.Controller.{RuntimeController, Env}
use opad.Daemon.Dispatch.{on_event}
use opad.Daemon.Steady.{is_config_save, is_idle_write, is_store_write}
use opad.Daemon.Steady.Timer.{
  sqlite_error-Heeds, sqlite_reconnected-Heeds, sync_completed-Heeds, tick-Heeds,
}
use opad.Daemon.Steady.Pad.{
  device_counters-Heeds, device_he_calibration_progress-Heeds, device_log_batch-Heeds,
  device_ownership-Heeds, device_status-Heeds,
}
use opad.Daemon.Steady.Play.{
  hear_press_times-Heeds, osu_active_changed-Heeds, pad_presses-Heeds,
  tosu_connection_changed-Heeds, tosu_keys-Heeds, tosu_telemetry-Heeds,
}
use opad.Prelude.{ℕ, ◌≡◌, refl, Bool, true, false, ◌||◌, List, [], ◌∷◌, any, arith}
use opad.Daemon.Events.{RuntimeAction}

module _ {fl : Float} where
  -- A pad connects.
  abbrev pub is_connection : RuntimeEvent fl → Bool
  is_connection (Events.device_connected info cfg) = true
  is_connection _ = false

  pub any-is_store_write :
      (actions : List (RuntimeAction fl))
      → any is_store_write actions ≡ (any is_idle_write actions || any is_config_save actions)
  any-is_store_write [] = refl
  any-is_store_write (a ∷ rest) = ground (arith, any-is_store_write rest)

module _ (fl : Float) where
  pub on_event-saves :
      (env : Env) (m : RuntimeController fl) (event : RuntimeEvent fl) (now : ℕ)
      → is_connection event ≡ false
      → any is_config_save (on_event fl env m event now).1 ≡ false
  unfolding on_event
  on_event-saves env m (Events.device_connected info cfg) now other = ground arith
  on_event-saves env m Events.device_disconnected now other = refl
  on_event-saves env m (Events.device_ownership owner_id) now other =
      (device_ownership-Heeds fl m owner_id).saves
  on_event-saves env m (Events.device_counters report) now other =
      (device_counters-Heeds fl m report).saves
  on_event-saves env m (Events.device_status latency cal) now other =
      (device_status-Heeds fl m latency cal).saves
  on_event-saves env m (Events.device_he_calibration_progress prog) now other =
      (device_he_calibration_progress-Heeds fl m prog).saves
  on_event-saves env m (Events.device_layout_ack screen acked message) now other = refl
  on_event-saves env m (Events.device_log_batch events) now other =
      (device_log_batch-Heeds fl m events).saves
  on_event-saves env m (Events.tosu_telemetry frame) now other =
      (tosu_telemetry-Heeds fl env m now frame).saves
  on_event-saves env m (Events.tosu_keys keys) now other = (tosu_keys-Heeds fl m keys).saves
  on_event-saves env m (Events.pad_press_times on) now other =
      (hear_press_times-Heeds fl m on).saves
  on_event-saves env m (Events.pad_presses now_us batch dropped received) now other =
      (pad_presses-Heeds fl m now_us batch received).saves
  on_event-saves env m (Events.tosu_connection_changed connected) now other =
      (tosu_connection_changed-Heeds fl env m now connected).saves
  on_event-saves env m (Events.osu_active_changed active) now other =
      (osu_active_changed-Heeds fl m active now).saves
  on_event-saves env m (Events.tick at) now other = (tick-Heeds fl env m at).saves
  on_event-saves env m (Events.sync_completed success counters time_str error) now other =
      (sync_completed-Heeds fl m success counters time_str error now).saves
  on_event-saves env m (Events.sqlite_reconnected config layouts stored) now other =
      (sqlite_reconnected-Heeds fl m config layouts stored).saves
  on_event-saves env m (Events.sqlite_error message) now other =
      (sqlite_error-Heeds fl m message).saves
