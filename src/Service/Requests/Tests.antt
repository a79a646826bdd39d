-- ===== src/Service/Requests/Tests.antt =====
-- Runs of the requests: during a map, at a guarded pad, and a takeover.
use opad.Tap.Tests.{whole}
use opad.Model.Config.{default_config}
use opad.Model.Counters.{CounterState, pc_is_ahead}
use opad.Daemon.State.{DeviceInfo, PendingTakeover, RuntimeMode, pad_guard, belongs_to_another}
use opad.Daemon.Controller.{new, initial_state, second}
use opad.Service.Store.{Storage, Row, load_device_state, find_row}
use opad.Service.Link.{Shared, Outside, layout_timed_out, send_counter_sync}
use opad.Service.Sync.{guard_text}
use opad.Service.Requests.{error, counters_restored, unless, loaded}
use opad.Service.Requests.Owner.{
  resolve_takeover, resolve_replacement, takeover_target, claimed, presses_of, record_for,
  take_over_if_pad_is_ahead,
}
use opad.Service.Requests.Handle.{
  handle_ipc_request, reset_counters_request, set_update_channel_request,
  resolve_replacement_request,
}
use opad.Service.Requests.Quiet.{IsGated}
use opad.Service.Requests.Gated.{handle_ipc_request-IsGated}
use opad.Service.Requests.Guarded.{handle_ipc_request-guarded}
use opad.Service.Requests.Takeover.{
  IsTaken, resolve_takeover-IsTaken, take_over_if_pad_is_ahead-presses,
}
use opad.Prelude.{
  ℕ, ◌≡◌, ◌≤◌, refl, Bool, true, false, none, some, Option, [], ◌∷◌, String, ok, arith,
}

abbrev counted : String → ℕ → ℕ → ℕ → CounterState
counted id generation k1 k2 = record {
  device_id = id;
  counter_generation = generation;
  lifetime_key1 = k1;
  lifetime_key2 = k2;
  map_key1 = 0;
  map_key2 = 0;
}

abbrev info : DeviceInfo
info = record {
  device_id = "OSUPAD-2";
  board_profile = "board";
  firmware_version = "1.0.0";
  protocol_version = 1;
  running_partition = none;
  he_input = false;
  he_calibration = false;
}

abbrev row : String → ℕ → Row
row id k1 = record {
  device_id = id;
  board_profile = "board";
  firmware_version = "1.0.0";
  counter_generation = 3;
  lifetime_key1 = k1;
  lifetime_key2 = 7;
  last_seen_at = "2026-01-01T00:00:00Z";
  last_sync_at = "2026-01-01T00:00:00Z";
}

abbrev prompt : PendingTakeover
prompt = record { device_id = "OSUPAD-2"; device_key1 = 50; device_key2 = 60 }

abbrev a_database : Storage
a_database = record {
  writes_allowed = true;
  healthy = true;
  config = default_config;
  device_state = row "OSUPAD-1" 500 ∷ row "OSUPAD-2" 40 ∷ [];
  layouts = [];
  app_state = [];
}

-- A pad of another install, with a prompt, and maybe a waiting replacement.
abbrev at_pad : RuntimeMode → Bool → Option PendingTakeover → Option String → Shared whole
unfolding new initial_state
at_pad mode foreign pending old = record {
  state =
      record ((new whole
        (record {
          utc = 1000;
          timestamp = 1000;
          clock = 5;
          parse_uuid = λ id. none;
          pick = λ known. none;
        })
        default_config none (counted "OSUPAD-2" 1 50 60) [] none [] second).state) {
          mode = mode;
          device_connected = true;
          device_info = some info;
          foreign_pad = foreign;
          pending_takeover = pending;
          pending_replacement = old;
          install_id = some "me";
        };
  storage = some a_database;
  pending_ops = record {
    pending_config = none;
    pending_layouts = [];
    pending_device_push = none;
    pending_last_seen = none;
  };
}

abbrev outside : Outside whole
outside = record {
  now = "2026-01-01T00:00:00Z";
  now_ms = 1000;
  to_uppercase = λ cs. cs;
  to_json = λ layout. "{}";
  parse_uuid = λ id. some (1 ∷ 2 ∷ []);
  meanwhile = λ n sh. sh;
  polls = [];
  replies = [];
  claims = ok tt;
  layout_reply = layout_timed_out;
  supports_tap_rate_per_second = true;
  to_text = λ n. "7";
  tap_history = λ s days. none;
  updates = some (ok tt);
  is_connected = true;
  supports_board_test = true;
  builtin_animations = 6;
  supports_restart = true;
  supports_he_calibration = true;
  sent = ok tt;
  board_report = some "good";
  pin_reply = none;
}

abbrev in_map : Shared whole
in_map = at_pad RuntimeMode.playing false none none

-- A setting waits for the database, which is locked during the map.
abbrev locked_map : Shared whole
unfolding at_pad
locked_map = record in_map { storage = some (record a_database { writes_allowed = false }) }

handle_ipc_request-IsGated_example :
    IsGated whole locked_map
      (handle_ipc_request whole outside locked_map (set_update_channel_request "beta"))
unfolding at_pad new initial_state
handle_ipc_request-IsGated_example =
    handle_ipc_request-IsGated whole outside locked_map (set_update_channel_request "beta") refl
      (λ setting. refl) (λ n s. refl)

abbrev foreign : Shared whole
foreign = at_pad RuntimeMode.idle true (some prompt) none

foreign_guarded : pad_guard whole foreign.state ≡ some belongs_to_another
unfolding at_pad new initial_state pad_guard
foreign_guarded = refl

handle_ipc_request-guarded_example :
    handle_ipc_request whole outside foreign (reset_counters_request true)
    ≡ (foreign, [], error (guard_text whole belongs_to_another))
handle_ipc_request-guarded_example =
    handle_ipc_request-guarded whole outside foreign belongs_to_another
      (reset_counters_request true) foreign_guarded refl

taken :
    (resolve_takeover whole outside foreign true true).2
    ≡ counters_restored (counted "OSUPAD-2" 4 50 60)
unfolding at_pad new initial_state resolve_takeover unless takeover_target claimed loaded
    load_device_state find_row
taken = refl

takeover_kept :
    IsTaken whole outside foreign.state.counters true
      (resolve_takeover whole outside foreign true true)
      (counted "OSUPAD-2" 4 50 60)
takeover_kept =
    resolve_takeover-IsTaken whole outside foreign true true (counted "OSUPAD-2" 4 50 60) taken

resolved :
    take_over_if_pad_is_ahead whole outside foreign
    ≡ some (resolve_takeover whole outside foreign true true)
unfolding at_pad new initial_state take_over_if_pad_is_ahead loaded load_device_state find_row
    pc_is_ahead
resolved = refl

take_over_if_pad_is_ahead-presses_example :
    ((presses_of (record_for whole foreign (some prompt))).0 ≤ 50)
    × ((presses_of (record_for whole foreign (some prompt))).1 ≤ 60)
unfolding at_pad new initial_state
take_over_if_pad_is_ahead-presses_example =
    take_over_if_pad_is_ahead-presses whole outside foreign prompt
      (resolve_takeover whole outside foreign true true) (counted "OSUPAD-2" 4 50 60) refl
      (omega arith, omega arith) resolved taken

-- The answer to the replacement prompt sends counters to a pad of another install.
sent_to_foreign :
    (handle_ipc_request whole outside
      (at_pad RuntimeMode.idle true (some prompt) (some "OSUPAD-1"))
      (resolve_replacement_request true)).1
    ≡ send_counter_sync (counted "OSUPAD-2" 4 500 7) true ∷ []
unfolding at_pad new initial_state handle_ipc_request resolve_replacement unless loaded
    load_device_state find_row
sent_to_foreign = refl
