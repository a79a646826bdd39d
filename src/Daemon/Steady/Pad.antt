-- ===== src/Daemon/Steady/Pad.antt =====
-- The pieces of the handlers of a pad's messages (desktop/daemon/src/runtime.rs).
use opad.Tap.Float.{Float}
use opad.Layout.{Screen, Layout}
use opad.Model.Config.{DeviceConfig}
use opad.Model.Counters.{CounterState}
use opad.Daemon.State.{
  DeviceInfo, LatencyStats, HeCalibrationStatus, HeCalibrationProgress, may_touch_pad, pad_guard,
}
use opad.Daemon.Events.{LogEvent}
use opad.Daemon.Controller.{RuntimeController, Env, Ownership}
use opad.Daemon.Step.{◌&>◌, ask, quiet}
use opad.Daemon.Connect.{leave_alone, greet, judge, register, enroll, announce, layouts_of, settle}
use opad.Daemon.Device.{
  device_ownership, device_disconnected, device_counters, device_status,
  device_he_calibration_progress, nvs_erased, log_action, device_log_batch,
}
use opad.Daemon.Steady.{
  Steady, Heeds, &>-Steady, &>-Heeds, is_flag, is_idle_write, is_config_save, is_sync, any-append,
}
use opad.Prelude.{ℕ, ◌≡◌, refl, Bool, false, Option, List, [], ◌∷◌, any, arith}

module _ (fl : Float) (m : RuntimeController fl) where
  pub leave_alone-Steady : (info : DeviceInfo) → Steady m (quiet (leave_alone fl m info))
  unfolding leave_alone
  leave_alone-Steady info = ground arith

  pub leave_alone-Heeds : (info : DeviceInfo) → Heeds m (quiet (leave_alone fl m info))
  unfolding leave_alone may_touch_pad pad_guard
  leave_alone-Heeds info = ground arith

  pub device_ownership-Steady :
      (owner_id : List ℕ) → Steady m (quiet (device_ownership fl m owner_id))
  unfolding device_ownership
  device_ownership-Steady owner_id = ground arith

  pub device_ownership-Heeds :
      (owner_id : List ℕ) → Heeds m (quiet (device_ownership fl m owner_id))
  unfolding device_ownership may_touch_pad pad_guard
  device_ownership-Heeds owner_id = ground arith

  pub device_counters-Steady :
      (report : CounterState) → Steady m (quiet (device_counters fl m report))
  unfolding device_counters
  device_counters-Steady report = ground arith

  pub device_counters-Heeds :
      (report : CounterState) → Heeds m (quiet (device_counters fl m report))
  unfolding device_counters may_touch_pad pad_guard
  device_counters-Heeds report = ground arith

  pub device_status-Steady :
      (latency : LatencyStats) (cal : Option HeCalibrationStatus)
      → Steady m (device_status fl m latency cal)
  unfolding device_status
  device_status-Steady latency cal = ground arith

  pub device_status-Heeds :
      (latency : LatencyStats) (cal : Option HeCalibrationStatus)
      → Heeds m (device_status fl m latency cal)
  unfolding device_status may_touch_pad pad_guard
  device_status-Heeds latency cal = ground arith

  pub device_he_calibration_progress-Steady :
      (prog : HeCalibrationProgress) → Steady m (device_he_calibration_progress fl m prog)
  unfolding device_he_calibration_progress
  device_he_calibration_progress-Steady prog = ground arith

  pub device_he_calibration_progress-Heeds :
      (prog : HeCalibrationProgress) → Heeds m (device_he_calibration_progress fl m prog)
  unfolding device_he_calibration_progress may_touch_pad pad_guard
  device_he_calibration_progress-Heeds prog = ground arith

  pub device_disconnected-Steady : Steady m (quiet (device_disconnected fl m))
  unfolding device_disconnected
  device_disconnected-Steady = ground arith

  pub nvs_erased-Steady : (ev : LogEvent) → Steady m (nvs_erased fl m ev)
  unfolding nvs_erased
  nvs_erased-Steady ev = ground arith

  pub nvs_erased-Heeds : (ev : LogEvent) → Heeds m (nvs_erased fl m ev)
  unfolding nvs_erased may_touch_pad pad_guard
  nvs_erased-Heeds ev = ground arith

  pub log_action-Steady : (ev : LogEvent) → Steady m (ask m (log_action fl ev ∷ []))
  unfolding log_action
  log_action-Steady ev = ground arith

  pub log_action-Heeds : (ev : LogEvent) → Heeds m (ask m (log_action fl ev ∷ []))
  unfolding log_action may_touch_pad pad_guard
  log_action-Heeds ev = ground arith

  pub greet-Steady :
      (info : DeviceInfo) (cfg : Option DeviceConfig) → Steady m (greet fl m info cfg)
  unfolding greet ◌&>◌
  greet-Steady info cfg = ground arith

  pub judge-Steady : (info : DeviceInfo) (owner : Ownership) → Steady m (judge fl m info owner)
  unfolding judge
  judge-Steady info owner = ground arith

  pub register-Steady : (env : Env) (info : DeviceInfo) → Steady m (register fl env m info)
  unfolding register enroll
  register-Steady env info = ground arith

module _ (fl : Float) where
  pub device_log_batch-Steady :
      (m : RuntimeController fl) (events : List LogEvent) → Steady m (device_log_batch fl m events)
  unfolding device_log_batch
  device_log_batch-Steady m [] = ground arith
  device_log_batch-Steady m (ev ∷ events) =
      &>-Steady (&>-Steady (nvs_erased-Steady fl m ev) (λ n. log_action-Steady fl n ev))
        (λ n. device_log_batch-Steady n events)

  pub device_log_batch-Heeds :
      (m : RuntimeController fl) (events : List LogEvent) → Heeds m (device_log_batch fl m events)
  unfolding device_log_batch may_touch_pad pad_guard
  device_log_batch-Heeds m [] = ground arith
  device_log_batch-Heeds m (ev ∷ events) =
      &>-Heeds (&>-Heeds (nvs_erased-Heeds fl m ev) (λ n. log_action-Heeds fl n ev))
        (λ n. device_log_batch-Heeds n events)

  pub is_flag-layouts_of :
      (layouts : List (Screen × Layout)) → any is_flag (layouts_of fl layouts) ≡ false
  unfolding layouts_of
  is_flag-layouts_of [] = refl
  is_flag-layouts_of ((screen, layout) ∷ rest) = is_flag-layouts_of rest

  pub is_idle_write-layouts_of :
      (layouts : List (Screen × Layout)) → any is_idle_write (layouts_of fl layouts) ≡ false
  unfolding layouts_of
  is_idle_write-layouts_of [] = refl
  is_idle_write-layouts_of ((screen, layout) ∷ rest) = is_idle_write-layouts_of rest

  pub is_sync-layouts_of :
      (layouts : List (Screen × Layout)) → any is_sync (layouts_of fl layouts) ≡ false
  unfolding layouts_of
  is_sync-layouts_of [] = refl
  is_sync-layouts_of ((screen, layout) ∷ rest) = is_sync-layouts_of rest

  pub is_config_save-layouts_of :
      (layouts : List (Screen × Layout)) → any is_config_save (layouts_of fl layouts) ≡ false
  unfolding layouts_of
  is_config_save-layouts_of [] = refl
  is_config_save-layouts_of ((screen, layout) ∷ rest) = is_config_save-layouts_of rest

  pub announce-Steady :
      (m : RuntimeController fl) (now : ℕ) (without_config : Bool)
      → Steady m (ask (settle fl m now) (announce fl m without_config))
  unfolding settle announce
  announce-Steady m now without_config =
      grind (arith, any-append, is_flag-layouts_of, is_idle_write-layouts_of)

  pub announce-Heeds :
      (m : RuntimeController fl) (now : ℕ) (without_config : Bool)
      → Heeds m (ask (settle fl m now) (announce fl m without_config))
  unfolding settle announce may_touch_pad pad_guard
  announce-Heeds m now without_config =
      grind (arith, any-append, is_sync-layouts_of, is_config_save-layouts_of)
