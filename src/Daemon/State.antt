-- ===== src/Daemon/State.antt =====
-- What the daemon knows (desktop/daemon/src/runtime.rs `DaemonState`, with the types it holds from
-- desktop/crates/opad-model/src/lib.rs and desktop/crates/opad-ipc/src/lib.rs).
use opad.Tap.Float.{Float}
use opad.Tap.Attempt.{AttemptStats}
use opad.Tap.Values.{SourceValue, TapHistory}
use opad.Layout.{Screen, Layout}
use opad.Model.Config.{DeviceConfig}
use opad.Model.Counters.{CounterState}
use opad.Prelude.{
  ℕ, Bool, true, false, ◌||◌, Option, none, some, List, String, is_some, if◌then◌else◌, str_eq,
}

pub data RuntimeMode : Type 0 where
  idle playing cooldown sync : RuntimeMode

abbrev pub is_idle : RuntimeMode → Bool
is_idle idle = true
is_idle _ = false

abbrev pub is_playing : RuntimeMode → Bool
is_playing playing = true
is_playing _ = false

abbrev pub is_cooldown : RuntimeMode → Bool
is_cooldown cooldown = true
is_cooldown _ = false

pub data CounterSource : Type 0 where
  device pc : CounterSource

pub record LatencyStats : Type 0 where
  pub samples : ℕ
  pub p50_us : ℕ
  pub p99_us : ℕ
  pub p999_us : ℕ
  pub max_us : ℕ
  pub deferred_reports : ℕ

pub record IncompatibleDevice : Type 0 where
  pub firmware_version : String
  pub protocol_version : ℕ

pub record DeviceInfo : Type 0 where
  pub device_id : String
  pub board_profile : String
  pub firmware_version : String
  pub protocol_version : ℕ
  pub running_partition : Option String
  pub he_input : Bool
  pub he_calibration : Bool

pub record HeCalibrationStatus : Type 0 where
  pub key1_calibrated : Bool
  pub key2_calibrated : Bool
  pub key1_rest : ℕ
  pub key1_full : ℕ
  pub key2_rest : ℕ
  pub key2_full : ℕ
  pub is_locked : Bool
  pub is_calibrating : Bool
  pub noise_floor_rest : ℕ
  pub noise_floor_movement : ℕ

pub data HeCalStage : Type 0 where
  no_stage rest key1 key2 success failed : HeCalStage

pub data HeCalError : Type 0 where
  no_error rest_not_still rest_out_of_range rest_pressed signal_not_rising span_too_small
        peaks_inconsistent too_few_peaks too_many_peaks timeout :
      HeCalError

pub record HeCalibrationProgress : Type 0 where
  pub stage : HeCalStage
  pub key_index : ℕ
  pub presses_done : ℕ
  pub error : HeCalError
  pub error_message : String
  pub raw_value : ℕ
  pub key1_rest : ℕ
  pub key1_full : ℕ
  pub key2_rest : ℕ
  pub key2_full : ℕ

pub record PendingTakeover : Type 0 where
  pub device_id : String
  pub device_key1 : ℕ
  pub device_key2 : ℕ

pub record PendingCounterReset : Type 0 where
  pub device_id : Option String

unfoldable pub applies_to : PendingCounterReset → String → Bool
applies_to r id = elim r.device_id [ none ↦ true | some own ↦ str_eq own id ]

pub record PendingOperations : Type 0 where
  pub pending_config : Option DeviceConfig
  pub pending_layouts : List (Screen × Option Layout)
  pub pending_device_push : Option PendingCounterReset
  pub pending_last_seen : Option String

module _ (fl : Float) where
  pub record TapStatsSnapshot : Type 0 where
    pub current : Option (AttemptStats fl)
    pub last : Option (AttemptStats fl)
    pub history : Option (TapHistory fl)
    pub period_days : ℕ
    pub unsaved_attempts : ℕ

  pub record TapState : Type 0 where
    pub snapshot : TapStatsSnapshot
    pub period_unsaved : Bool

  pub record DaemonState : Type 0 where
    pub mode : RuntimeMode
    pub device_connected : Bool
    pub device_info : Option DeviceInfo
    pub counters : CounterState
    pub counters_source : CounterSource
    pub pc_counters : Option CounterState
    pub esp_counters : Option CounterState
    pub config : DeviceConfig
    pub last_sync_time : Option String
    pub last_sync_error : Option String
    pub storage_error : Option String
    pub tosu_connected : Bool
    pub osu_active : Bool
    pub latency : Option LatencyStats
    pub pending_replacement : Option String
    pub install_id : Option String
    pub pending_takeover : Option PendingTakeover
    pub foreign_pad : Bool
    pub incompatible : Option IncompatibleDevice
    pub ui_values : List (ℕ × SourceValue fl)
    pub custom_layouts : List (Screen × Layout)
    pub last_backup : Option String
    pub nvs_restore_pending : Bool
    pub tap : TapState
    pub he_calibration : Option HeCalibrationStatus
    pub latest_he_progress : Option HeCalibrationProgress

  pub data GuardReason : Type 0 where
    belongs_to_another replacement_waits : GuardReason

  unfoldable pub pad_guard : DaemonState → Option GuardReason
  pad_guard st =
      if st.foreign_pad || is_some st.pending_takeover
      then some belongs_to_another
      else (if is_some st.pending_replacement then some replacement_waits else none)

  abbrev is_clear : Option GuardReason → Bool
  is_clear none = true
  is_clear (some r) = false

  unfoldable pub may_touch_pad : DaemonState → Bool
  unfolding pad_guard
  may_touch_pad st = is_clear (pad_guard st)
