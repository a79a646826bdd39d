-- ===== src/Daemon/Dispatch.antt =====
-- One event through the controller (desktop/daemon/src/runtime.rs, `on_event` and `apply_event`).
use opad.Tap.Float.{Float}
use opad.Daemon.State.{DaemonState, DeviceInfo, PendingOperations}
use opad.Daemon.Events
use opad.Daemon.Events.{RuntimeEvent, RuntimeAction}
use opad.Daemon.Controller.{RuntimeController, Env, insert_known}
use opad.Daemon.Step.{Step, quiet}
use opad.Daemon.Connect
use opad.Daemon.Device
use opad.Daemon.Tosu
use opad.Daemon.Tick
use opad.Daemon.Attempts
use opad.Prelude.{ℕ, not, ◌&&◌, Option, none, some, List, String, if◌then◌else◌, is_some}

module _ (fl : Float) where
  unfoldable pub on_event : Env → RuntimeController fl → RuntimeEvent fl → ℕ → Step fl
  on_event env m (Events.device_connected info dev_cfg) now =
      Connect.device_connected fl env m info dev_cfg now
  on_event env m (Events.device_ownership owner_id) now =
      quiet (Device.device_ownership fl m owner_id)
  on_event env m Events.device_disconnected now = quiet (Device.device_disconnected fl m)
  on_event env m (Events.device_counters report) now = quiet (Device.device_counters fl m report)
  on_event env m (Events.device_status latency cal) now = Device.device_status fl m latency cal
  on_event env m (Events.device_he_calibration_progress prog) now =
      Device.device_he_calibration_progress fl m prog
  on_event env m (Events.device_layout_ack screen acked message) now = quiet m
  on_event env m (Events.device_log_batch events) now = Device.device_log_batch fl m events
  on_event env m (Events.tosu_telemetry frame) now = Tosu.tosu_telemetry fl env m frame now
  on_event env m (Events.tosu_keys keys) now = quiet (Tosu.tosu_keys fl m keys)
  on_event env m (Events.pad_press_times on) now = quiet (Tosu.hear_press_times fl m on)
  on_event env m (Events.pad_presses now_us batch dropped received) now =
      quiet (Attempts.pad_presses fl m now_us batch received)
  on_event env m (Events.tosu_connection_changed connected) now =
      Tosu.tosu_connection_changed fl env m connected now
  on_event env m (Events.osu_active_changed active) now = Tosu.osu_active_changed fl m active now
  on_event env m (Events.tick at) now = Tick.tick fl env m at
  on_event env m (Events.sync_completed success counters time_str error) now =
      Tick.sync_completed fl m success counters time_str error now
  on_event env m (Events.sqlite_reconnected config layouts stored) now =
      Tick.sqlite_reconnected fl m config layouts stored
  on_event env m (Events.sqlite_error message) now = quiet (Tick.sqlite_error fl m message)

  abbrev known_with : Option DeviceInfo → List String → List String
  known_with none known = known
  known_with (some info) known = insert_known info.device_id known

  -- The controller once it has seen that a replacement prompt was answered.
  unfoldable pub see_answer : RuntimeController fl → DaemonState fl → RuntimeController fl
  see_answer m shared =
      if m.replacement_was_pending && not (is_some shared.pending_replacement)
      then record m { known_devices = known_with shared.device_info m.known_devices }
      else m

  pub record Applied : Type 0 where
    pub controller : RuntimeController fl
    pub shared : DaemonState fl
    pub pending_ops : PendingOperations
    pub actions : List (RuntimeAction fl)

  abbrev hand_over : Option String → PendingOperations → PendingOperations
  hand_over none queue = queue
  hand_over (some id) queue = record queue { pending_last_seen = some id }

  -- The shared state and the controller's spare copy change places for the event.
  unfoldable pub apply_event :
      Env
      → RuntimeController fl
      → DaemonState fl
      → PendingOperations
      → RuntimeEvent fl
      → ℕ
      → Applied
  unfolding see_answer
  apply_event env m shared queue event now =
      let seen = see_answer m shared in
      let done = on_event env (record seen { state = shared }) event now in
      record {
        controller = record (done.0) {
          state = m.state;
          replacement_was_pending = is_some done.0.state.pending_replacement;
          pending_ops = record (done.0.pending_ops) { pending_last_seen = none };
        };
        shared = done.0.state;
        pending_ops = hand_over done.0.pending_ops.pending_last_seen queue;
        actions = done.1;
      }
