-- ===== src/Daemon/Tests.antt =====
-- Runs of the controller: a play with its end, and a pad of another install.
use opad.Tap.Tests.{whole}
use opad.Tap.Attempt.{BeatmapRef}
use opad.Model.Config.{default_config}
use opad.Model.Counters.{CounterState}
use opad.Daemon.State.{DeviceInfo, idle, playing, sync, is_idle, may_touch_pad, pad_guard}
use opad.Daemon.Events
use opad.Daemon.Events.{RuntimeEvent, TosuFrame}
use opad.Daemon.Controller.{
  RuntimeController, Env, new, initial_state, second, ownership_of, is_unclaimed, owns,
  insert_known,
}
use opad.Daemon.Step.{◌&>◌}
use opad.Daemon.Connect.{
  layouts_of, device_connected, welcome, greet, judge, register, announce, is_nvs_wiped,
  adopt_config, settle, enroll,
}
use opad.Daemon.Device.{device_ownership}
use opad.Daemon.Dispatch.{on_event}
use opad.Daemon.Tosu.{tosu_telemetry, cooldown_duration}
use opad.Daemon.Tick.{tick, sync_completed, auto_backup_delay}
use opad.Daemon.Steady.{is_push, is_idle_write}
use opad.Daemon.Writes.Saves.{is_connection}
use opad.Daemon.Writes.{Gated}
use opad.Daemon.Writes.Trace.{run, run-Gated, on_event_writes}
use opad.Daemon.Owner.{IsOwn, on_event_foreign, on_event_syncs}
use opad.Daemon.Invariant.{Sound}
use opad.Daemon.Invariant.Trace.{run_new-Sound}
use opad.Daemon.Ending.{mode_at, tosu_telemetry-tick}
use opad.Daemon.Ending.Backup.{is_backup, sync_completed-tick}
use opad.Daemon.Hello.{hello, run-hello}
use opad.Daemon.Telemetry.{new_sync, get}
use opad.Daemon.Telemetry.Flush.{
  Traffic, values_arrive, flush, Shows, exchange, exchanges, exchanges-Shows,
}
use opad.Tap.Values.{label}
use opad.Prelude.{
  ◌⊎◌, arith, ℕ, ◌+◌, ◌*◌, ◌≡◌, refl, Bool, true, false, none, some, List, [], ◌∷◌, any, leb,
}

-- An install whose identity is the bytes 1, 2.
abbrev env : Env
env = record {
  utc = 1000;
  timestamp = 1000;
  clock = 5;
  parse_uuid = λ id. some (1 ∷ 2 ∷ []);
  pick = λ known. none;
}

abbrev no_counters : CounterState
no_counters = record {
  device_id = "";
  counter_generation = 1;
  lifetime_key1 = 0;
  lifetime_key2 = 0;
  map_key1 = 0;
  map_key2 = 0;
}

abbrev info : DeviceInfo
info = record {
  device_id = "OSUPAD-1";
  board_profile = "board";
  firmware_version = "1.0.0";
  protocol_version = 1;
  running_partition = none;
  he_input = false;
  he_calibration = false;
}

abbrev start : RuntimeController whole
start = new whole env default_config none no_counters [] none [] second

abbrev map_ref : BeatmapRef
map_ref = record {
  title = "song";
  artist = "artist";
  difficulty = "hard";
  beatmap_id = none;
  checksum = none;
  rule_set = none;
  mods = none;
}

abbrev frame : Bool → TosuFrame whole
frame on = record {
  is_playing = on;
  live_time_ms = 100;
  values = [];
  beatmap = map_ref;
  failed = false;
  clock = none;
  other_player = false;
  results_grade = none;
}

abbrev install : RuntimeController whole
unfolding new initial_state
install = record start { state = record (start.state) { install_id = some "me" } }

abbrev play : RuntimeController whole
unfolding new initial_state
play = record start { state = record (start.state) { mode = playing } }

abbrev syncing : RuntimeController whole
unfolding new initial_state
syncing = record start { state = record (start.state) { mode = sync }; backup_after_sync = true }

abbrev a_play : List (Env × RuntimeEvent whole × ℕ)
a_play =
    (env, Events.device_connected info none, second)
    ∷ (env, Events.tosu_telemetry (frame true), 2 * second)
    ∷ (env, Events.tosu_telemetry (frame false), 3 * second)
    ∷ (env, Events.tick (9 * second), 9 * second)
    ∷ []

run-Gated_example : Gated start (run whole start a_play)
run-Gated_example = run-Gated whole start a_play

run_new-Sound_example : Sound (run whole start a_play).0
run_new-Sound_example =
    run_new-Sound whole env default_config none no_counters [] none [] second a_play

abbrev owned : RuntimeController whole
unfolding device_ownership
owned = device_ownership whole install (3 ∷ [])

abbrev own : RuntimeController whole
unfolding device_ownership
own = device_ownership whole install (1 ∷ 2 ∷ [])

-- A pad of another install is pushed nothing.
on_event_foreign_example :
    any is_push (on_event whole env owned (Events.device_connected info none) second).1 ≡ false
unfolding on_event device_connected welcome greet judge register announce is_nvs_wiped adopt_config
    settle enroll ◌&>◌ ownership_of is_unclaimed owns insert_known new initial_state
    device_ownership
on_event_foreign_example =
    on_event_foreign whole env owned (Events.device_connected info none) second refl

on_event_syncs_example :
    IsOwn whole (on_event whole env own (Events.device_connected info none) second).0.state
unfolding on_event device_connected welcome greet judge register announce is_nvs_wiped adopt_config
    settle enroll ◌&>◌ ownership_of is_unclaimed owns insert_known new initial_state
    device_ownership may_touch_pad pad_guard layouts_of
on_event_syncs_example =
    on_event_syncs whole env own (Events.device_connected info none) second refl

on_event_writes_example :
    (is_idle (on_event whole env own (Events.device_connected info none) second).0.state.mode
      ≡ true)
    ⊎ ((is_connection {fl = whole} (Events.device_connected info none) ≡ true)
        × (any is_idle_write (on_event whole env own (Events.device_connected info none) second).1
            ≡ false))
unfolding on_event device_connected welcome greet judge register announce is_nvs_wiped adopt_config
    settle enroll ◌&>◌ ownership_of is_unclaimed owns insert_known new initial_state
    device_ownership
on_event_writes_example =
    on_event_writes whole env own (Events.device_connected info none) second refl

tosu_telemetry-tick_example :
    (tick whole env
      (tosu_telemetry whole env play (frame false) second).0
      (6 * second)).0.state.mode
    ≡ mode_at
        (may_touch_pad whole (tosu_telemetry whole env play (frame false) second).0.state)
        (second + cooldown_duration)
        (6 * second)
unfolding new initial_state
tosu_telemetry-tick_example =
    tosu_telemetry-tick whole env env play (frame false) second (6 * second) refl refl

sync_completed-tick_example :
    ((sync_completed whole syncing true no_counters none none second).0.state.mode ≡ idle)
    × (any is_backup
          (tick whole env
            (sync_completed whole syncing true no_counters none none second).0
            (21 * second)).1
        ≡ leb (second + auto_backup_delay) (21 * second))
unfolding new initial_state
sync_completed-tick_example =
    sync_completed-tick whole env syncing true no_counters none none second (21 * second) refl refl

abbrev newer : DeviceInfo
newer = record info { protocol_version = 2 }

run-hello_example :
    ((run whole install (hello env (3 ∷ []) no_counters true newer none second)).1 ≡ [])
    × ((run whole install (hello env (3 ∷ []) no_counters true newer none second)).0.state.counters
        ≡ install.state.counters)
    × ((run whole install (hello env (3 ∷ []) no_counters true newer none second)).0.state.config
        ≡ install.state.config)
    × ((run whole install (hello env (3 ∷ []) no_counters true newer none second)).0.known_devices
        ≡ install.known_devices)
    × ((run whole install
          (hello env (3 ∷ []) no_counters true newer none second)).0.state.device_connected
        ≡ false)
    × ((run whole install
          (hello env (3 ∷ []) no_counters true newer none second)).0.state.incompatible
        ≡ some (record { firmware_version = "1.0.0"; protocol_version = 2 }))
run-hello_example =
    run-hello whole env install (3 ∷ []) no_counters true newer none second
      (λ e. absurd (omega arith))

abbrev a_session : List (Traffic whole)
a_session =
    values_arrive ((1, label "HR") ∷ (2, label "90") ∷ [])
    ∷ flush second true 10 false
    ∷ values_arrive ((1, label "DT") ∷ [])
    ∷ []

exchanges-Shows_example :
    Shows whole
      (get 1
        (exchange whole
          (exchanges whole (new_sync whole, []) a_session)
          (flush (2 * second) true 10 true)).1)
      (get 1 (exchanges whole (new_sync whole, []) a_session).0.latest)
exchanges-Shows_example = exchanges-Shows whole a_session (2 * second) 10 1 true
