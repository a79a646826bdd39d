-- ===== src/Daemon/Device.antt =====
-- What else a pad reports (desktop/daemon/src/runtime.rs, `on_event` on the `Device*` events).
use opad.Tap.Float.{Float}
use opad.Model.Counters.{CounterState, is_empty}
use opad.Daemon.State.{
  HeCalibrationStatus, HeCalibrationProgress, HeCalStage, success, DeviceInfo, LatencyStats,
  is_idle, may_touch_pad, pc,
}
use opad.Daemon.Events.{
  RuntimeAction, LogEvent, LogLevel, LogText, diag_text, plain, stamped, debug, info, warn, error,
  trigger_sync, request_device_status, push_esp_log, launch_gui_calibration,
}
use opad.Daemon.Controller.{RuntimeController}
use opad.Daemon.Step.{Step, ◌&>◌, ask, quiet}
use opad.Daemon.Attempts.{emit}
use opad.Prelude.Text.{codes}
use opad.Prelude.{
  ℕ, Bool, true, false, not, ◌&&◌, ◌||◌, Option, none, some, List, [], ◌∷◌, ◌==◌, if◌then◌else◌,
}

abbrev pub diag_event_nvs_erased : ℕ
diag_event_nvs_erased = 8

abbrev pub starts_with : List ℕ → List ℕ → Bool
starts_with cs [] = true
starts_with [] (p ∷ ps) = false
starts_with (d ∷ ds) (p ∷ ps) = d == p && starts_with ds ps

unfoldable pub log_level : ℕ → LogLevel
log_level level =
    if level == 0
    then debug
    else (if level == 2 then warn else (if level == 3 then error else info))

unfoldable pub log_message : LogEvent → LogText
log_message ev =
    if not (ev.event_id == 0)
    then diag_text ev.event_id ev.arg0 ev.arg1
    else plain (if is_empty ev.message then "ESP event 0" else ev.message)

-- Whether the pad may calibrate, by its HelloAck.
abbrev pub is_capable : Option DeviceInfo → Bool
is_capable none = false
is_capable (some i) = i.he_calibration

abbrev pub is_uncalibrated : Option HeCalibrationStatus → Bool
is_uncalibrated none = false
is_uncalibrated (some cal) = cal.is_locked || (not cal.key1_calibrated || not cal.key2_calibrated)

abbrev pub is_success : HeCalStage → Bool
is_success success = true
is_success _ = false

module _ (fl : Float) where
  unfoldable pub device_ownership : RuntimeController fl → List ℕ → RuntimeController fl
  device_ownership m owner_id = record m {
    reported_owner = some owner_id;
    pre_hello_counters = some m.state.counters;
  }

  unfoldable pub device_disconnected : RuntimeController fl → RuntimeController fl
  device_disconnected m = record m {
    state = record (m.state) {
      device_connected = false;
      counters_source = pc;
      esp_counters = none;
      incompatible = none;
      pending_takeover = none;
      foreign_pad = false;
      he_calibration = none;
      latest_he_progress = none;
    };
    pad_press_times = false;
    pad_epoch = none;
    reported_owner = none;
    pre_hello_counters = none;
    cal_gui_launched = false;
  }

  -- A batch of counters has no device id, and a full report has no counters of the map.
  unfoldable pub merge_report : CounterState → CounterState → CounterState
  merge_report own report =
      if is_empty report.device_id
      then record own {
        lifetime_key1 = report.lifetime_key1;
        lifetime_key2 = report.lifetime_key2;
        map_key1 = report.map_key1;
        map_key2 = report.map_key2;
      }
      else record own {
        lifetime_key1 = report.lifetime_key1;
        lifetime_key2 = report.lifetime_key2;
        device_id = report.device_id;
        counter_generation = report.counter_generation;
      }

  unfoldable pub device_counters : RuntimeController fl → CounterState → RuntimeController fl
  device_counters m report =
      let counters = merge_report m.state.counters report in
      record m { state = record (m.state) { counters = counters; esp_counters = some counters } }

  unfoldable pub device_status :
      RuntimeController fl → LatencyStats → Option HeCalibrationStatus → Step fl
  device_status m latency he_calibration =
      let launch = is_uncalibrated he_calibration && not m.cal_gui_launched in
      if is_capable m.state.device_info
      then ask
          (record m {
            state = record (m.state) { latency = some latency; he_calibration = he_calibration };
            cal_gui_launched = launch || m.cal_gui_launched;
          })
          (emit launch launch_gui_calibration)
      else quiet
          (record m { state = record (m.state) { latency = some latency; he_calibration = none } })

  unfoldable pub device_he_calibration_progress :
      RuntimeController fl → HeCalibrationProgress → Step fl
  device_he_calibration_progress m prog =
      if not m.state.device_connected || not (is_capable m.state.device_info)
      then quiet m
      else ask (record m { state = record (m.state) { latest_he_progress = some prog } })
          (emit (is_success prog.stage) request_device_status)

  -- `DIAG_EVENT_NVS_ERASED` from a pad that is ours.
  unfoldable pub nvs_erased : RuntimeController fl → LogEvent → Step fl
  nvs_erased m ev =
      if ev.event_id == diag_event_nvs_erased
        && (m.state.device_connected
            && (not m.state.foreign_pad && not m.state.nvs_restore_pending))
      then ask (record m { state = record (m.state) { nvs_restore_pending = true } })
          (emit (is_idle m.state.mode && may_touch_pad fl m.state) trigger_sync)
      else quiet m

  unfoldable pub log_action : LogEvent → RuntimeAction fl
  log_action ev =
      if starts_with (codes ev.tag) (codes "he.")
      then push_esp_log (log_level ev.level) ev.tag (stamped ev.timestamp_ms (log_message ev))
      else push_esp_log (log_level ev.level) "firmware" (log_message ev)

  unfoldable pub device_log_batch : RuntimeController fl → List LogEvent → Step fl
  device_log_batch m [] = quiet m
  device_log_batch m (ev ∷ events) =
      nvs_erased m ev &> (λ n. ask n (log_action ev ∷ [])) &> λ n. device_log_batch n events
