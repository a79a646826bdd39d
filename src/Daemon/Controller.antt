-- ===== src/Daemon/Controller.antt =====
-- The runtime controller's fields and how it starts (desktop/daemon/src/runtime.rs,
-- `RuntimeController`), with the pad's owner as it is judged (desktop/daemon/src/identity.rs). An
-- `Instant` is a count of nanoseconds; a `HashSet` is a list without repetition.
use opad.Tap.Float.{Float}
use opad.Tap.Attempt.{AttemptStats, AttemptTracker}
use opad.Tap.Values.{TapHistory}
use opad.Layout.{Screen, Layout}
use opad.Model.Config.{DeviceConfig}
use opad.Model.Counters.{CounterState, is_empty}
use opad.Daemon.Telemetry.{DataSync, new_sync}
use opad.Daemon.State.{idle, pc, DeviceInfo, PendingOperations, DaemonState}
use opad.Prelude.Text.{same_codes}
use opad.Prelude.{
  ℕ, ◌-◌, ◌%◌, ◌^◌, Bool, true, false, not, ◌||◌, Option, none, some, List, [], ◌∷◌, String, ◌==◌,
  str_eq, if◌then◌else◌, is_some, any,
}

-- What the code takes from the clocks, from the `uuid` crate and from the order of a `HashSet`.
pub record Env : Type 0 where
  -- `chrono::Utc::now()`
  pub utc : ℕ
  -- `chrono::Utc::now().timestamp()`
  pub timestamp : ℕ
  -- `Instant::now()` in `take_changes`
  pub clock : ℕ
  -- the bytes of `uuid::Uuid::parse_str`
  pub parse_uuid : String → Option (List ℕ)
  -- `iter().next()` of a `HashSet`
  pub pick : List String → Option String

abbrev pub second : ℕ
second = 1000000000

pub data PressSource : Type 0 where
  undecided pad tosu : PressSource

abbrev pub is_tosu : PressSource → Bool
is_tosu tosu = true
is_tosu _ = false

abbrev pub is_known : String → List String → Bool
is_known id known = any (str_eq id) known

-- `HashSet::insert`
unfoldable pub insert_known : String → List String → List String
insert_known id known = if is_known id known then known else id ∷ known

module _ (fl : Float) where
  open fl use {F}

  pub record RuntimeController : Type 0 where
    pub state : DaemonState fl
    pub pending_ops : PendingOperations
    pub cooldown_deadline : Option ℕ
    pub backup_deadline : Option ℕ
    pub backup_after_sync : Bool
    pub last_host_status : ℕ
    pub last_status_poll : ℕ
    pub last_periodic_sync : ℕ
    pub last_periodic_time_sync : ℕ
    pub last_synced_counters : Option CounterState
    pub play_id : ℕ
    pub last_live_ms : Option F
    pub data_sync : DataSync fl
    pub known_devices : List String
    pub has_initial_db_entry : Bool
    pub reported_owner : Option (List ℕ)
    pub pre_hello_counters : Option CounterState
    pub replacement_was_pending : Bool
    pub tap_attempt : Option (AttemptTracker fl)
    pub last_keys : Option (ℕ × ℕ)
    pub last_failed : Bool
    pub tap_unsaved : List (AttemptStats fl)
    pub tap_published_history : Option (TapHistory fl)
    pub last_tap_history_refresh : ℕ
    pub pad_press_times : Bool
    pub pad_epoch : Option ℕ
    pub press_source : PressSource
    pub tosu_pending : List (ℕ × ℕ × ℕ)
    pub results_armed : Bool
    pub on_results_screen : Bool
    pub cal_gui_launched : Bool

  abbrev pub known_from : List String → Option DeviceInfo → List String
  unfolding insert_known
  known_from [] none = []
  known_from [] (some d) = insert_known d.device_id []
  known_from (id ∷ ids) d = insert_known id (known_from ids d)

  abbrev pub is_nil : List String → Bool
  is_nil [] = true
  is_nil (x ∷ xs) = false

  unfoldable pub initial_state :
      DeviceConfig
      → Option DeviceInfo
      → CounterState
      → List (Screen × Layout)
      → Option String
      → DaemonState fl
  initial_state initial_config initial_device initial_counters initial_layouts storage_error =
      record {
        mode = idle;
        device_connected = false;
        device_info = initial_device;
        counters = initial_counters;
        counters_source = pc;
        pc_counters = if is_empty initial_counters.device_id then none else some initial_counters;
        esp_counters = none;
        config = initial_config;
        last_sync_time = none;
        last_sync_error = none;
        storage_error = storage_error;
        tosu_connected = false;
        osu_active = false;
        latency = none;
        pending_replacement = none;
        install_id = none;
        pending_takeover = none;
        foreign_pad = false;
        incompatible = none;
        ui_values = [];
        custom_layouts = initial_layouts;
        last_backup = none;
        nvs_restore_pending = false;
        tap = record {
          snapshot = record {
            current = none;
            last = none;
            history = none;
            period_days = 30;
            unsaved_attempts = 0;
          };
          period_unsaved = false;
        };
        he_calibration = none;
        latest_he_progress = none;
      }

  unfoldable pub new :
      Env
      → DeviceConfig
      → Option DeviceInfo
      → CounterState
      → List (Screen × Layout)
      → Option String
      → List String
      → ℕ
      → RuntimeController
  unfolding initial_state
  new env config device counters layouts storage_error existing_device_ids now = record {
    state = initial_state config device counters layouts storage_error;
    pending_ops = record {
      pending_config = none;
      pending_layouts = [];
      pending_device_push = none;
      pending_last_seen = none;
    };
    cooldown_deadline = none;
    backup_deadline = none;
    backup_after_sync = false;
    last_host_status = now - second;
    last_status_poll = now;
    last_periodic_sync = now;
    last_periodic_time_sync = now;
    last_synced_counters = none;
    play_id = env.timestamp % 2 ^ 32;
    last_live_ms = none;
    data_sync = new_sync fl;
    known_devices = known_from existing_device_ids device;
    has_initial_db_entry = not (is_nil existing_device_ids) || is_some device;
    reported_owner = none;
    pre_hello_counters = none;
    replacement_was_pending = false;
    tap_attempt = none;
    last_keys = none;
    last_failed = false;
    tap_unsaved = [];
    tap_published_history = none;
    last_tap_history_refresh = now;
    pad_press_times = false;
    pad_epoch = none;
    press_source = undecided;
    tosu_pending = [];
    results_armed = false;
    on_results_screen = false;
    cal_gui_launched = false;
  }

pub data Ownership : Type 0 where
  no_identity unclaimed ours someone : Ownership

unfoldable pub is_unclaimed : List ℕ → Bool
is_unclaimed [] = true
is_unclaimed (b ∷ bs) = let rest = is_unclaimed bs in elim (b == 0) [ true ↦ rest | false ↦ false ]

unfoldable pub owns : Env → Option String → List ℕ → Bool
owns env none owner_id = false
owns env (some install) owner_id = elim (env.parse_uuid install) [
  | none ↦ false
  | some bytes ↦ same_codes owner_id bytes
]

unfoldable pub ownership_of : Env → Option String → List ℕ → Ownership
unfolding is_unclaimed owns
ownership_of env none owner_id = no_identity
ownership_of env (some install) owner_id =
    if is_unclaimed owner_id
    then unclaimed
    else (if owns env (some install) owner_id then ours else someone)
