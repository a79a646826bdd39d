-- ===== src/Daemon/Invariant/Pieces.antt =====
-- The handlers of desktop/daemon/src/runtime.rs, piece by piece.
use opad.Tap.Float.{Float}
use opad.Model.Config.{DeviceConfig}
use opad.Model.Counters.{CounterState}
use opad.Layout.{Screen, Layout}
use opad.Daemon.State.{DeviceInfo, LatencyStats, HeCalibrationStatus, HeCalibrationProgress}
use opad.Daemon.Events.{LogEvent, TosuFrame, KeyCounts}
use opad.Daemon.Controller.{RuntimeController, Env, Ownership}
use opad.Daemon.Step.{ask, quiet, ◌&>◌}
use opad.Daemon.Connect.{leave_alone, greet, judge, register, enroll, announce, settle}
use opad.Daemon.Device.{
  device_ownership, device_disconnected, device_counters, device_status,
  device_he_calibration_progress, nvs_erased, log_action,
}
use opad.Daemon.Attempts.{
  finish_tap_attempt, start_tap_attempt, publish_tap_attempt, publish_tap_history, watch_replay,
  take_presses, undecided_presses, tosu_presses, pad_presses, results_animation,
}
use opad.Daemon.Tosu.{
  hear_frame, follow_attempt, hear_clock, enter_playing, open_attempt, rest_frame, leave_playing,
  tosu_keys, hear_press_times, osu_active_changed, hear_connection, lose_tosu, drop_values,
  tell_connection,
}
use opad.Daemon.Tick.{
  tick_cooldown, tick_status, tick_host_status, flush_values, refresh_values, tick_time_sync,
  tick_periodic_sync, tick_tap_stats, tick_backup, sync_completed, hear_sync, settle_sync,
  sqlite_reconnected, sqlite_error,
}
use opad.Daemon.Invariant.{Sound, Timed, Keeps, KeepsTimed, length-cap_unsaved}
use opad.Prelude.{ℕ, Bool, Option, String, List, [], ◌∷◌, arith}

module _ (fl : Float) (m : RuntimeController fl) where
  pub leave_alone-Keeps : (info : DeviceInfo) → Keeps m (quiet (leave_alone fl m info))
  unfolding leave_alone
  leave_alone-Keeps info = ground arith

  pub greet-Keeps : (info : DeviceInfo) (cfg : Option DeviceConfig) → Keeps m (greet fl m info cfg)
  unfolding greet ◌&>◌
  greet-Keeps info cfg = ground arith

  pub judge-Keeps : (info : DeviceInfo) (owner : Ownership) → Keeps m (judge fl m info owner)
  unfolding judge
  judge-Keeps info owner = ground arith

  pub register-Keeps : (env : Env) (info : DeviceInfo) → Keeps m (register fl env m info)
  unfolding register enroll
  register-Keeps env info = ground arith

  pub settle-Keeps :
      (now : ℕ) (without_config : Bool)
      → Keeps m (ask (settle fl m now) (announce fl m without_config))
  unfolding settle
  settle-Keeps now without_config = ground arith

  pub device_ownership-Keeps :
      (owner_id : List ℕ) → Keeps m (quiet (device_ownership fl m owner_id))
  unfolding device_ownership
  device_ownership-Keeps owner_id = ground arith

  pub device_disconnected-Keeps : Keeps m (quiet (device_disconnected fl m))
  unfolding device_disconnected
  device_disconnected-Keeps = ground arith

  pub device_counters-Keeps :
      (report : CounterState) → Keeps m (quiet (device_counters fl m report))
  unfolding device_counters
  device_counters-Keeps report = ground arith

  pub device_status-Keeps :
      (latency : LatencyStats) (cal : Option HeCalibrationStatus)
      → Keeps m (device_status fl m latency cal)
  unfolding device_status
  device_status-Keeps latency cal = ground arith

  pub device_he_calibration_progress-Keeps :
      (prog : HeCalibrationProgress) → Keeps m (device_he_calibration_progress fl m prog)
  unfolding device_he_calibration_progress
  device_he_calibration_progress-Keeps prog = ground arith

  pub nvs_erased-Keeps : (ev : LogEvent) → Keeps m (nvs_erased fl m ev)
  unfolding nvs_erased
  nvs_erased-Keeps ev = ground arith

  pub log_action-Keeps : (ev : LogEvent) → Keeps m (ask m (log_action fl ev ∷ []))
  unfolding log_action
  log_action-Keeps ev = ground arith

  pub hear_frame-Keeps : (frame : TosuFrame fl) → Keeps m (quiet (hear_frame fl m frame))
  unfolding hear_frame
  hear_frame-Keeps frame = ground arith

  pub follow_attempt-KeepsTimed :
      (env : Env) (frame : TosuFrame fl) (now : ℕ)
      → KeepsTimed m (quiet (follow_attempt fl env m frame now))
  unfolding follow_attempt start_tap_attempt finish_tap_attempt publish_tap_attempt
  follow_attempt-KeepsTimed env frame now = grind (arith, length-cap_unsaved)

  pub hear_clock-KeepsTimed :
      (frame : TosuFrame fl) (now : ℕ) → KeepsTimed m (quiet (hear_clock fl m frame now))
  unfolding hear_clock watch_replay publish_tap_attempt
  hear_clock-KeepsTimed frame now = ground arith

  pub open_attempt-Keeps :
      (env : Env) (new_attempt : Bool) (now : ℕ) → Keeps m (open_attempt fl env m new_attempt now)
  unfolding open_attempt
  open_attempt-Keeps env new_attempt now = ground arith

  pub rest_frame-Keeps : (env : Env) (now : ℕ) → Keeps m (rest_frame fl env m now)
  unfolding rest_frame leave_playing finish_tap_attempt
  rest_frame-Keeps env now = grind (arith, length-cap_unsaved)

  pub results_animation-Keeps :
      (on failed other_player : Bool) (grade : Option String)
      → Keeps m (results_animation fl m on failed other_player grade)
  unfolding results_animation
  results_animation-Keeps on failed other_player grade = ground arith

  pub tosu_keys-Keeps : (keys : KeyCounts) → Keeps m (quiet (tosu_keys fl m keys))
  unfolding tosu_keys tosu_presses take_presses undecided_presses publish_tap_attempt
  tosu_keys-Keeps keys = ground arith

  pub pad_presses-Keeps :
      (now_us : ℕ) (batch : List (ℕ × ℕ)) (received : ℕ)
      → Keeps m (quiet (pad_presses fl m now_us batch received))
  unfolding pad_presses publish_tap_attempt
  pad_presses-Keeps now_us batch received = ground arith

  pub hear_press_times-Keeps : (on : Bool) → Keeps m (quiet (hear_press_times fl m on))
  unfolding hear_press_times
  hear_press_times-Keeps on = ground arith

  pub osu_active_changed-Keeps :
      (active : Bool) (now : ℕ) → Keeps m (osu_active_changed fl m active now)
  unfolding osu_active_changed
  osu_active_changed-Keeps active now = ground arith

  pub hear_connection-Keeps :
      (env : Env) (connected : Bool) (now : ℕ) → Keeps m (hear_connection fl env m connected now)
  unfolding hear_connection lose_tosu drop_values publish_tap_history finish_tap_attempt
  hear_connection-Keeps env connected now = grind (arith, length-cap_unsaved)

  pub tell_connection-Keeps :
      (connected : Bool) (now : ℕ) → Keeps m (tell_connection fl m connected now)
  unfolding tell_connection
  tell_connection-Keeps connected now = ground arith

  pub tick_cooldown-Keeps : (now : ℕ) → Keeps m (tick_cooldown fl m now)
  unfolding tick_cooldown
  tick_cooldown-Keeps now = ground arith

  pub tick_status-Keeps : (now : ℕ) → Keeps m (tick_status fl m now)
  unfolding tick_status
  tick_status-Keeps now = ground arith

  pub tick_host_status-Keeps : (now : ℕ) → Keeps m (tick_host_status fl m now)
  unfolding tick_host_status
  tick_host_status-Keeps now = ground arith

  pub flush_values-Keeps :
      (env : Env) (now : ℕ) → Keeps m (flush_values fl env (refresh_values fl m now))
  unfolding flush_values refresh_values publish_tap_history publish_tap_attempt
  flush_values-Keeps env now = ground arith

  pub tick_time_sync-Keeps : (now : ℕ) → Keeps m (tick_time_sync fl m now)
  unfolding tick_time_sync
  tick_time_sync-Keeps now = ground arith

  pub tick_periodic_sync-Keeps : (now : ℕ) → Keeps m (tick_periodic_sync fl m now)
  unfolding tick_periodic_sync
  tick_periodic_sync-Keeps now = ground arith

  pub tick_tap_stats-Keeps : (now : ℕ) → Keeps m (tick_tap_stats fl m now)
  unfolding tick_tap_stats
  tick_tap_stats-Keeps now = ground arith

  pub tick_backup-Keeps : (now : ℕ) → Keeps m (tick_backup fl m now)
  unfolding tick_backup
  tick_backup-Keeps now = ground arith

  pub sync_completed-Keeps :
      (success : Bool) (counters : CounterState) (time_str error : Option String) (now : ℕ)
      → Keeps m (sync_completed fl m success counters time_str error now)
  unfolding sync_completed hear_sync settle_sync
  sync_completed-Keeps success counters time_str error now = ground arith

  pub sqlite_reconnected-Keeps :
      (config : Option DeviceConfig) (layouts : List (Screen × Layout))
      (stored : Option CounterState)
      → Keeps m (sqlite_reconnected fl m config layouts stored)
  unfolding sqlite_reconnected
  sqlite_reconnected-Keeps config layouts stored = ground arith

  pub sqlite_error-Keeps : (message : String) → Keeps m (quiet (sqlite_error fl m message))
  unfolding sqlite_error
  sqlite_error-Keeps message = ground arith

  -- The mode follows the attempt.
  pub enter_playing_sound : Timed m → Sound (enter_playing fl m).0
  unfolding enter_playing
  enter_playing_sound h = ground arith
