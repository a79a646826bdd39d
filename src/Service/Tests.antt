-- ===== src/Service/Tests.antt =====
-- Runs of the sync: one that the pad takes at the second attempt, and one that it never takes.
use opad.Tap.Tests.{whole}
use opad.Model.Config.{default_config}
use opad.Model.Counters.{CounterState, reconcile_counters}
use opad.Daemon.State.{DeviceInfo, pad_guard}
use opad.Daemon.Controller.{new, initial_state, second}
use opad.Service.Store.{Storage, load_device_state, find_row}
use opad.Service.Link.{Shared, Outside, SyncReply, accepted, rejected, layout_timed_out}
use opad.Service.Sync.{
  perform_sync, with_guards, sync_with, starting, begun, attempts, refreshed, save_refreshed,
  conclude, wait_idle, if_idle, reset_for, stored_counters, is_accepted,
}
use opad.Service.Sync.Agreed.{is_ok}
use opad.Service.Sync.Outcome.{MayTalk, heard_idle, perform_sync-is_ok}
use opad.Service.Sync.Failure.{IsUntouched, perform_sync-IsUntouched}
use opad.Prelude.{ℕ, ◌≡◌, refl, true, false, ◌&&◌, none, some, List, [], ◌∷◌, any, take, ok, err}

abbrev counted : ℕ → ℕ → CounterState
counted k1 k2 = record {
  device_id = "OSUPAD-1";
  counter_generation = 1;
  lifetime_key1 = k1;
  lifetime_key2 = k2;
  map_key1 = 0;
  map_key2 = 0;
}

abbrev info : DeviceInfo
info = record {
  device_id = "OSUPAD-1";
  board_profile = "board";
  firmware_version = "1.0.0";
  protocol_version = 1;
  running_partition = none;
  he_input = false;
  he_calibration = false;
}

abbrev database : Storage
database = record {
  writes_allowed = true;
  healthy = true;
  config = default_config;
  device_state = [];
  layouts = [];
  app_state = [];
}

-- The daemon with a pad that has reported 10 and 20 presses.
abbrev shared : Shared whole
unfolding new initial_state
shared = record {
  state =
      record ((new whole
        (record {
          utc = 1000;
          timestamp = 1000;
          clock = 5;
          parse_uuid = λ id. none;
          pick = λ known. none;
        })
        default_config none (counted 10 20) [] none [] second).state) {
          device_connected = true;
          device_info = some info;
        };
  storage = some database;
  pending_ops = record {
    pending_config = none;
    pending_layouts = [];
    pending_device_push = none;
    pending_last_seen = none;
  };
}

abbrev outside : List SyncReply → Outside whole
outside replies = record {
  now = "2026-01-01T00:00:00Z";
  now_ms = 1000;
  to_uppercase = λ cs. cs;
  to_json = λ layout. "{}";
  parse_uuid = λ id. none;
  meanwhile = λ n sh. sh;
  polls = some false ∷ none ∷ some true ∷ [];
  replies = replies;
  claims = ok tt;
  layout_reply = layout_timed_out;
  supports_tap_rate_per_second = true;
  to_text = λ n. "7";
  tap_history = λ s days. none;
  updates = some (ok tt);
  is_connected = true;
  supports_board_test = true;
  builtin_animations = 6;
  supports_restart = true;
  supports_he_calibration = true;
  sent = ok tt;
  board_report = some "good";
  pin_reply = none;
}

-- The pad has counted on before it takes the counters.
abbrev counting_on : Outside whole
counting_on = outside (rejected "behind" (some (counted 11 20)) ∷ accepted ∷ [])

abbrev silent : Outside whole
silent = outside []

shared-MayTalk : MayTalk whole shared info
unfolding pad_guard new initial_state
shared-MayTalk = record { stored = refl; unguarded = refl; known = refl; connected = refl }

perform_sync-is_ok_example :
    is_ok (perform_sync whole counting_on shared).2
    ≡ (any heard_idle counting_on.polls && any is_accepted (take 3 counting_on.replies))
perform_sync-is_ok_example = perform_sync-is_ok counting_on shared info shared-MayTalk

unheard : (perform_sync whole silent shared).2 ≡ err "Timeout waiting for CounterSyncResponse (2s)"
unfolding perform_sync with_guards sync_with starting begun attempts refreshed save_refreshed
    conclude wait_idle if_idle reset_for stored_counters pad_guard reconcile_counters
    load_device_state find_row new initial_state
unheard = refl

perform_sync-IsUntouched_example : IsUntouched whole shared (perform_sync whole silent shared).0
perform_sync-IsUntouched_example =
    perform_sync-IsUntouched silent shared "Timeout waiting for CounterSyncResponse (2s)"
      (λ n s. refl) unheard
