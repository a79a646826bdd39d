-- ===== src/Service/Link.antt =====
-- What the tasks of the daemon share, and the pad as a sync or a request meets it
-- (desktop/daemon/src/sync.rs `DeviceLink`). The pad's answers, the clock and what the other tasks do
-- while one waits are the record `Outside`.
use opad.Tap.Float.{Float}
use opad.Tap.Values.{TapHistory}
use opad.Layout.{Screen, Layout}
use opad.Model.Config.{DeviceConfig}
use opad.Model.Counters.{CounterState}
use opad.Daemon.State.{DaemonState, PendingOperations}
use opad.Service.Store.{Storage, StorageError}
use opad.Prelude.{ℕ, Bool, Option, none, some, List, String, Result, ok, err}

-- A call of `DeviceLink` that sends something to the pad.
pub data PadCall : Type 0 where
  request_status send_time_sync : PadCall
  send_config : DeviceConfig → PadCall
  send_layout : Screen → Layout → PadCall
  reset_layout : Screen → PadCall
  send_counter_sync : CounterState → Bool → PadCall
  claim_ownership : List ℕ → PadCall
  reset_latency_stats run_board_test restart_pad start_he_calibration cancel_he_calibration :
      PadCall
  detect_pin : (key_id timeout_ms exclude_gpio : ℕ) → PadCall
  play_animation : ℕ → String → PadCall
  -- `send_data_update` of one number
  send_number : (source value : ℕ) → PadCall

-- What becomes of one `CounterSync`.
pub data SyncReply : Type 0 where
  accepted closed timed_out : SyncReply
  not_sent : String → SyncReply
  rejected : String → Option CounterState → SyncReply

-- What becomes of a layout that was sent: not sent, acknowledged, or neither.
pub data LayoutReply : Type 0 where
  layout_not_sent layout_timed_out layout_closed : LayoutReply
  layout_ack : Bool → String → LayoutReply

module _ (fl : Float) where
  pub record Shared : Type 0 where
    pub state : DaemonState fl
    pub storage : Option Storage
    pub pending_ops : PendingOperations

  pub record Outside : Type 0 where
    -- `Utc::now().to_rfc3339()`
    pub now : String
    -- the clock in milliseconds, and Unicode's upper case
    pub now_ms : ℕ
    pub to_uppercase : List ℕ → List ℕ
    -- `Layout::to_json`
    pub to_json : Layout → String
    -- the bytes of `uuid::Uuid::parse_str`
    pub parse_uuid : String → Option (List ℕ)
    -- what the other tasks do to the shared state during a wait
    pub meanwhile : ℕ → Shared → Shared
    -- the rounds that fit in three seconds: the first status heard in each, if any, and if it is idle
    pub polls : List (Option Bool)
    -- one for each `CounterSync` of a sync
    pub replies : List SyncReply
    -- `claim_ownership`
    pub claims : Result String Unit
    pub layout_reply : LayoutReply
    pub supports_tap_rate_per_second : Bool
    -- `u32::to_string`, and the history that the database reads for a period
    pub to_text : ℕ → String
    pub tap_history : Storage → ℕ → Option (TapHistory fl)
    -- `channel_changed` of the update worker, if it runs
    pub updates : Option (Result String Unit)
    -- what the pad is known to be able to do
    pub is_connected : Bool
    pub supports_board_test : Bool
    pub builtin_animations : ℕ
    pub supports_restart : Bool
    pub supports_he_calibration : Bool
    -- what becomes of a command, the text of the board test's report, and the pin that is detected
    pub sent : Result String Unit
    pub board_report : Option String
    pub pin_reply : Option (ℕ × Bool)

  abbrev pub with_state : Shared → DaemonState fl → Shared
  with_state sh st = record sh { state = st }

  -- `if let Some(s) = storage { let _ = write(s); }`
  abbrev pub in_storage : (Storage → Result StorageError Storage) → Shared → Shared
  in_storage write sh = record sh {
    storage = elim sh.storage [
      | none ↦ none
      | some s ↦ some (elim (write s) [ ok s' ↦ s' | err e ↦ s ])
    ];
  }
