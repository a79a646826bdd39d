-- ===== src/Daemon/Invariant/Trace.antt =====
-- Every event of desktop/daemon/src/runtime.rs, and every sequence of them, from the start on.
use opad.Tap.Float.{Float}
use opad.Layout.{Screen, Layout}
use opad.Protocol.{device_protocol_version}
use opad.Model.Config.{DeviceConfig}
use opad.Model.Counters.{CounterState}
use opad.Daemon.State.{DeviceInfo}
use opad.Daemon.Events
use opad.Daemon.Events.{RuntimeEvent, LogEvent, TosuFrame}
use opad.Daemon.Controller.{RuntimeController, Env, ownership_of, new, initial_state}
use opad.Daemon.Step.{◌&>◌, quiet}
use opad.Daemon.Connect.{welcome, device_connected}
use opad.Daemon.Device.{device_log_batch}
use opad.Daemon.Tosu.{
  follow_attempt, hear_clock, enter_playing, play_frame, take_frame, tosu_telemetry, is_new_attempt,
  tosu_connection_changed,
}
use opad.Daemon.Tick.{tick, tick_rest}
use opad.Daemon.Dispatch.{on_event}
use opad.Daemon.Steady.{branches}
use opad.Daemon.Writes.Trace.{run}
use opad.Daemon.Invariant.{Sound, Keeps, &>-Keeps}
use opad.Daemon.Invariant.Pieces.{
  leave_alone-Keeps, greet-Keeps, judge-Keeps, register-Keeps, settle-Keeps, device_ownership-Keeps,
  device_disconnected-Keeps, device_counters-Keeps, device_status-Keeps,
  device_he_calibration_progress-Keeps, nvs_erased-Keeps, log_action-Keeps, hear_frame-Keeps,
  follow_attempt-KeepsTimed, hear_clock-KeepsTimed, open_attempt-Keeps, rest_frame-Keeps,
  results_animation-Keeps, tosu_keys-Keeps, pad_presses-Keeps, hear_press_times-Keeps,
  osu_active_changed-Keeps, hear_connection-Keeps, tell_connection-Keeps, tick_cooldown-Keeps,
  tick_status-Keeps, tick_host_status-Keeps, flush_values-Keeps, tick_time_sync-Keeps,
  tick_periodic_sync-Keeps, tick_tap_stats-Keeps, tick_backup-Keeps, sync_completed-Keeps,
  sqlite_reconnected-Keeps, sqlite_error-Keeps, enter_playing_sound,
}
use opad.Prelude.{ℕ, ◌==◌, ◌||◌, not, Option, String, List, [], ◌∷◌, arith, is_some, unwrap_or}

module _ (fl : Float) where
  quiet-Keeps : (m : RuntimeController fl) → Keeps m (quiet m)
  quiet-Keeps m = record { keep = λ h. h }

  device_log_batch-Keeps :
      (m : RuntimeController fl) (events : List LogEvent) → Keeps m (device_log_batch fl m events)
  unfolding device_log_batch
  device_log_batch-Keeps m [] = quiet-Keeps m
  device_log_batch-Keeps m (ev ∷ events) =
      &>-Keeps (&>-Keeps (nvs_erased-Keeps fl m ev) (λ n. log_action-Keeps fl n ev))
        (λ n. device_log_batch-Keeps n events)

  device_connected-Keeps :
      (env : Env) (m : RuntimeController fl) (info : DeviceInfo) (cfg : Option DeviceConfig)
      (now : ℕ)
      → Keeps m (device_connected fl env m info cfg now)
  unfolding device_connected welcome
  device_connected-Keeps env m info cfg now =
      branches (Keeps m) (info.protocol_version == device_protocol_version)
        (&>-Keeps
          (&>-Keeps
            (&>-Keeps (greet-Keeps fl m info cfg) (λ n.
              judge-Keeps fl n info
                (ownership_of env n.state.install_id (unwrap_or n.reported_owner []))))
            (λ n. register-Keeps fl n env info))
          (λ n. settle-Keeps fl n now (not (is_some cfg) || n.state.nvs_restore_pending)))
        (leave_alone-Keeps fl m info)

  -- The first half of a frame moves the attempt, and then the mode follows.
  play_frame-Keeps :
      (env : Env) (m : RuntimeController fl) (frame : TosuFrame fl) (now : ℕ)
      → Keeps m (play_frame fl env m frame now)
  unfolding play_frame ◌&>◌
  play_frame-Keeps env m frame now = record {
    keep = λ h.
        let followed = follow_attempt fl env m frame now in
        let heard = hear_clock fl followed frame now in
        let timed = (follow_attempt-KeepsTimed fl m env frame now).keep h.timed in
        let timed' = (hear_clock-KeepsTimed fl followed frame now).keep timed in
        (open_attempt-Keeps fl (enter_playing fl heard).0 env (is_new_attempt fl m frame) now).keep
          (enter_playing_sound fl heard timed');
  }

  tosu_telemetry-Keeps :
      (env : Env) (m : RuntimeController fl) (frame : TosuFrame fl) (now : ℕ)
      → Keeps m (tosu_telemetry fl env m frame now)
  unfolding tosu_telemetry take_frame
  tosu_telemetry-Keeps env m frame now =
      &>-Keeps
        (&>-Keeps (hear_frame-Keeps fl m frame) (λ n.
          branches (Keeps n) frame.is_playing (play_frame-Keeps env n frame now)
            (rest_frame-Keeps fl n env now)))
        (λ n.
          results_animation-Keeps fl n frame.is_playing frame.failed frame.other_player
            frame.results_grade)

  tick-Keeps : (env : Env) (m : RuntimeController fl) (now : ℕ) → Keeps m (tick fl env m now)
  unfolding tick tick_rest
  tick-Keeps env m now = &>-Keeps (tick_cooldown-Keeps fl m now) (λ l.
      &>-Keeps
        (&>-Keeps
          (&>-Keeps
            (&>-Keeps
              (&>-Keeps
                (&>-Keeps (tick_status-Keeps fl l now) (λ n. tick_host_status-Keeps fl n now))
                (λ n. flush_values-Keeps fl n env now))
              (λ n. tick_time_sync-Keeps fl n now))
            (λ n. tick_periodic_sync-Keeps fl n now))
          (λ n. tick_tap_stats-Keeps fl n now))
        (λ n. tick_backup-Keeps fl n now))

  -- Every event keeps the controller sound: a cooldown has a deadline and nothing else has one, a
  -- backup is due only in idle, an attempt is open only during a play, and at most 500 ended attempts
  -- wait to be saved.
  pub on_event-Keeps :
      (env : Env) (m : RuntimeController fl) (event : RuntimeEvent fl) (now : ℕ)
      → Keeps m (on_event fl env m event now)
  unfolding on_event tosu_connection_changed
  on_event-Keeps env m (Events.device_connected info cfg) now =
      device_connected-Keeps env m info cfg now
  on_event-Keeps env m (Events.device_ownership owner_id) now = device_ownership-Keeps fl m owner_id
  on_event-Keeps env m Events.device_disconnected now = device_disconnected-Keeps fl m
  on_event-Keeps env m (Events.device_counters report) now = device_counters-Keeps fl m report
  on_event-Keeps env m (Events.device_status latency cal) now = device_status-Keeps fl m latency cal
  on_event-Keeps env m (Events.device_he_calibration_progress prog) now =
      device_he_calibration_progress-Keeps fl m prog
  on_event-Keeps env m (Events.device_layout_ack screen acked message) now = quiet-Keeps m
  on_event-Keeps env m (Events.device_log_batch events) now = device_log_batch-Keeps m events
  on_event-Keeps env m (Events.tosu_telemetry frame) now = tosu_telemetry-Keeps env m frame now
  on_event-Keeps env m (Events.tosu_keys keys) now = tosu_keys-Keeps fl m keys
  on_event-Keeps env m (Events.pad_press_times on) now = hear_press_times-Keeps fl m on
  on_event-Keeps env m (Events.pad_presses now_us batch dropped received) now =
      pad_presses-Keeps fl m now_us batch received
  on_event-Keeps env m (Events.tosu_connection_changed connected) now =
      &>-Keeps (hear_connection-Keeps fl m env connected now)
        (λ n. tell_connection-Keeps fl n connected now)
  on_event-Keeps env m (Events.osu_active_changed active) now =
      osu_active_changed-Keeps fl m active now
  on_event-Keeps env m (Events.tick at) now = tick-Keeps env m at
  on_event-Keeps env m (Events.sync_completed success counters time_str error) now =
      sync_completed-Keeps fl m success counters time_str error now
  on_event-Keeps env m (Events.sqlite_reconnected config layouts stored) now =
      sqlite_reconnected-Keeps fl m config layouts stored
  on_event-Keeps env m (Events.sqlite_error message) now = sqlite_error-Keeps fl m message

  new-Sound :
      (env : Env) (config : DeviceConfig) (device : Option DeviceInfo) (counters : CounterState)
      (layouts : List (Screen × Layout)) (storage_error : Option String) (ids : List String)
      (now : ℕ)
      → Sound (new fl env config device counters layouts storage_error ids now)
  unfolding new initial_state
  new-Sound env config device counters layouts storage_error ids now = ground arith

  run-Keeps :
      (m : RuntimeController fl) (events : List (Env × RuntimeEvent fl × ℕ))
      → Keeps m (run fl m events)
  unfolding run
  run-Keeps m [] = quiet-Keeps m
  run-Keeps m ((env, event, now) ∷ rest) =
      &>-Keeps (on_event-Keeps env m event now) (λ n. run-Keeps n rest)

  -- From the start on, with any configuration and any sequence of events: a cooldown has a deadline and
  -- no other mode has one, a backup is due only in idle, an attempt is open only during a play, and at
  -- most 500 ended attempts wait to be saved.
  pub run_new-Sound :
      (env : Env) (config : DeviceConfig) (device : Option DeviceInfo) (counters : CounterState)
      (layouts : List (Screen × Layout)) (storage_error : Option String) (ids : List String)
      (now : ℕ) (events : List (Env × RuntimeEvent fl × ℕ))
      → Sound (run fl (new fl env config device counters layouts storage_error ids now) events).0
  run_new-Sound env config device counters layouts storage_error ids now events =
      let start = new fl env config device counters layouts storage_error ids now in
      (run-Keeps start events).keep
        (new-Sound env config device counters layouts storage_error ids now)
