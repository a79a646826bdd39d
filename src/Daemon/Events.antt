-- ===== src/Daemon/Events.antt =====
-- What the controller hears and what it asks for (desktop/daemon/src/runtime.rs `RuntimeEvent`,
-- `RuntimeAction`).
use opad.Tap.Float.{Float}
use opad.Tap.Attempt.{AttemptStats, BeatmapRef, SongClock}
use opad.Tap.Values.{SourceValue}
use opad.Layout.{Screen, Layout}
use opad.Model.Config.{DeviceConfig}
use opad.Model.Counters.{CounterState}
use opad.Daemon.State.{DeviceInfo, LatencyStats, HeCalibrationStatus, HeCalibrationProgress}
use opad.Prelude.{ℕ, Bool, Option, List, String}

pub data LogLevel : Type 0 where
  debug info warn error : LogLevel

-- The text of a pad's log line: a diagnostic event with its arguments, or a message, behind the pad's
-- own clock where the line keeps it.
pub data LogText : Type 0 where
  diag_text : ℕ → ℕ → ℕ → LogText
  plain : String → LogText
  stamped : ℕ → LogText → LogText

pub record LogEvent : Type 0 where
  pub timestamp_ms : ℕ
  pub level : ℕ
  pub tag : String
  pub message : String
  pub event_id : ℕ
  pub arg0 : ℕ
  pub arg1 : ℕ

pub record KeyCounts : Type 0 where
  pub k1 : ℕ
  pub k2 : ℕ
  pub at : ℕ

module _ (fl : Float) where
  open fl use {F}

  pub record TosuFrame : Type 0 where
    pub is_playing : Bool
    pub live_time_ms : F
    pub values : List (ℕ × SourceValue fl)
    pub beatmap : BeatmapRef
    pub failed : Bool
    pub clock : Option (SongClock fl)
    pub other_player : Bool
    pub results_grade : Option String

  pub data RuntimeEvent : Type 0 where
    device_connected : DeviceInfo → Option DeviceConfig → RuntimeEvent
    device_ownership : List ℕ → RuntimeEvent
    device_disconnected : RuntimeEvent
    device_counters : CounterState → RuntimeEvent
    device_status : LatencyStats → Option HeCalibrationStatus → RuntimeEvent
    device_he_calibration_progress : HeCalibrationProgress → RuntimeEvent
    device_layout_ack : ℕ → Bool → String → RuntimeEvent
    device_log_batch : List LogEvent → RuntimeEvent
    tosu_telemetry : TosuFrame → RuntimeEvent
    tosu_keys : KeyCounts → RuntimeEvent
    pad_press_times : Bool → RuntimeEvent
    pad_presses : ℕ → List (ℕ × ℕ) → ℕ → ℕ → RuntimeEvent
    tosu_connection_changed : Bool → RuntimeEvent
    osu_active_changed : Bool → RuntimeEvent
    tick : ℕ → RuntimeEvent
    sync_completed : Bool → CounterState → Option String → Option String → RuntimeEvent
    sqlite_reconnected :
        Option DeviceConfig → List (Screen × Layout) → Option CounterState → RuntimeEvent
    sqlite_error : String → RuntimeEvent

  pub data RuntimeAction : Type 0 where
    take_over_if_pad_is_ahead send_time_sync trigger_sync claim_ownership request_device_status :
        RuntimeAction
    send_config save_device_config : DeviceConfig → RuntimeAction
    send_host_status :
        (tosu_connected is_playing : Bool) → (play_id : ℕ) → (osu_active : Bool) → RuntimeAction
    send_data_update : List (ℕ × SourceValue fl) → RuntimeAction
    play_animation : ℕ → String → RuntimeAction
    send_layout : Screen → Layout → RuntimeAction
    set_storage_writes_allowed : Bool → RuntimeAction
    save_initial_device_state : DeviceInfo → CounterState → RuntimeAction
    touch_device_last_seen : String → RuntimeAction
    push_esp_log : LogLevel → String → LogText → RuntimeAction
    write_auto_backup refresh_tap_history launch_gui_calibration : RuntimeAction
    save_tap_stats : List (AttemptStats fl) → Option ℕ → RuntimeAction
