-- ===== src/Daemon/Tick.antt =====
-- The daemon's timer and what syncs and storage report (desktop/daemon/src/runtime.rs, `on_event` on
-- `Tick`, `SyncCompleted`, `SqliteReconnected` and `SqliteError`).
use opad.Tap.Float.{Float}
use opad.Tap.Attempt.{AttemptStats, AttemptTracker}
use opad.Tap.Attempt
use opad.Layout.{Screen, Layout, screen_to_wire}
use opad.Model.Config.{DeviceConfig}
use opad.Model.Counters.{CounterState}
use opad.Daemon.Telemetry.{take_changes}
use opad.Daemon.State.{
  DeviceInfo, RuntimeMode, idle, cooldown, sync, is_idle, is_playing, may_touch_pad,
}
use opad.Daemon.Events.{
  set_storage_writes_allowed, trigger_sync, request_device_status, send_host_status,
  send_data_update, send_time_sync, save_tap_stats, refresh_tap_history, write_auto_backup,
}
use opad.Daemon.Controller.{RuntimeController, Env, second, insert_known}
use opad.Daemon.Step.{Step, ◌&>◌, ask, quiet}
use opad.Daemon.Attempts.{emit, publish_tap_attempt, publish_tap_history}
use opad.Prelude.{
  ℕ, ◌+◌, ◌-◌, ◌*◌, Bool, true, false, not, ◌&&◌, ◌||◌, Option, none, some, List, [], ◌∷◌, String,
  leb, ◌==◌, if◌then◌else◌, then_some, is_some, length,
}

abbrev pub status_poll_interval : ℕ
status_poll_interval = second

abbrev pub host_status_interval : ℕ
host_status_interval = second

abbrev pub time_sync_interval : ℕ
time_sync_interval = 600 * second

abbrev pub periodic_sync_interval : ℕ
periodic_sync_interval = 300 * second

abbrev pub tap_history_refresh : ℕ
tap_history_refresh = 3600 * second

abbrev pub auto_backup_delay : ℕ
auto_backup_delay = 20 * second

abbrev pub is_due : Option ℕ → ℕ → Bool
is_due none now = false
is_due (some deadline) now = leb deadline now

module _ (fl : Float) where
  abbrev is_nil : {A : Type 0} → List A → Bool
  is_nil [] = true
  is_nil (x ∷ xs) = false

  abbrev end_cooldown : RuntimeController fl → Step fl
  end_cooldown m =
      if may_touch_pad fl m.state
      then ask
          (record m {
            state = record (m.state) { mode = sync };
            cooldown_deadline = none;
            backup_after_sync = true;
          })
          (set_storage_writes_allowed true ∷ trigger_sync ∷ [])
      else ask (record m { state = record (m.state) { mode = idle }; cooldown_deadline = none })
          (set_storage_writes_allowed true ∷ [])

  abbrev pub is_cooldown_over : RuntimeMode → Option ℕ → ℕ → Bool
  is_cooldown_over cooldown deadline now = is_due deadline now
  is_cooldown_over _ deadline now = false

  unfoldable pub tick_cooldown : RuntimeController fl → ℕ → Step fl
  tick_cooldown m now =
      if is_cooldown_over m.state.mode m.cooldown_deadline now then end_cooldown m else quiet m

  unfoldable pub tick_status : RuntimeController fl → ℕ → Step fl
  tick_status m now =
      if leb status_poll_interval (now - m.last_status_poll)
      then ask (record m { last_status_poll = now })
          (emit m.state.device_connected request_device_status)
      else quiet m

  unfoldable pub tick_host_status : RuntimeController fl → ℕ → Step fl
  tick_host_status m now =
      if m.state.device_connected && leb host_status_interval (now - m.last_host_status)
      then ask (record m { last_host_status = now })
          (send_host_status m.state.tosu_connected (is_playing m.state.mode) m.play_id
              m.state.osu_active
            ∷ [])
      else quiet m

  abbrev advance_attempt :
      RuntimeController fl → Option (AttemptTracker fl) → ℕ → RuntimeController fl
  advance_attempt m none now = m
  advance_attempt m (some tracker) now =
      publish_tap_attempt fl (record m { tap_attempt = some (Attempt.advance fl tracker now) })

  abbrev with_unsaved_count : RuntimeController fl → ℕ → RuntimeController fl
  with_unsaved_count m count = record m {
    state = record (m.state) {
      tap = record (m.state.tap) {
        snapshot = record (m.state.tap.snapshot) { unsaved_attempts = count };
      };
    };
  }

  -- The values to show are brought up to date.
  unfoldable pub refresh_values : RuntimeController fl → ℕ → RuntimeController fl
  refresh_values m now =
      let m' = publish_tap_history fl (advance_attempt m m.tap_attempt now) false in
      with_unsaved_count m' (length m'.tap_unsaved)

  unfoldable pub flush_values : Env → RuntimeController fl → Step fl
  flush_values env m =
      let taken =
        take_changes fl m.data_sync env.clock (is_playing m.state.mode)
          m.state.config.gameplay_display_hz false in
      if m.state.device_connected && not m.state.foreign_pad
      then ask (record m { data_sync = taken.0 })
          (emit (not (is_nil taken.1)) (send_data_update taken.1))
      else quiet m

  abbrev counters_changed : Option CounterState → CounterState → Bool
  counters_changed none current = true
  counters_changed (some prev) current =
      not (prev.lifetime_key1 == current.lifetime_key1)
      || not (prev.lifetime_key2 == current.lifetime_key2)

  unfoldable pub is_our_idle_pad : RuntimeController fl → Bool
  is_our_idle_pad m = m.state.device_connected && (not m.state.foreign_pad && is_idle m.state.mode)

  unfoldable pub tick_time_sync : RuntimeController fl → ℕ → Step fl
  unfolding is_our_idle_pad
  tick_time_sync m now =
      if is_our_idle_pad m && leb time_sync_interval (now - m.last_periodic_time_sync)
      then ask (record m { last_periodic_time_sync = now })
          (send_time_sync ∷ request_device_status ∷ [])
      else quiet m

  unfoldable pub tick_periodic_sync : RuntimeController fl → ℕ → Step fl
  unfolding is_our_idle_pad
  tick_periodic_sync m now =
      if is_our_idle_pad m && leb periodic_sync_interval (now - m.last_periodic_sync)
      then ask (record m { last_periodic_sync = now })
          (emit
            (counters_changed m.last_synced_counters m.state.counters
              && (not (is_some m.state.storage_error) && may_touch_pad fl m.state))
            trigger_sync)
      else quiet m

  abbrev saved : RuntimeController fl → ℕ → RuntimeController fl
  saved m now = record m {
    state = record (m.state) {
      tap = record (m.state.tap) {
        snapshot = record (m.state.tap.snapshot) { unsaved_attempts = 0 };
        period_unsaved = false;
      };
    };
    last_tap_history_refresh = now;
    tap_unsaved = [];
  }

  unfoldable pub tick_tap_stats : RuntimeController fl → ℕ → Step fl
  tick_tap_stats m now =
      let tap = m.state.tap in
      if is_idle m.state.mode && not (is_some m.state.storage_error)
      then (if not (is_nil m.tap_unsaved) || tap.period_unsaved
          then ask (saved m now) (
              save_tap_stats m.tap_unsaved (then_some tap.period_unsaved tap.snapshot.period_days)
              ∷ [])
          else (if leb tap_history_refresh (now - m.last_tap_history_refresh)
              then ask (record m { last_tap_history_refresh = now }) (refresh_tap_history ∷ [])
              else quiet m))
      else quiet m

  -- A deadline with the daemon out of idle is dropped.
  unfoldable pub tick_backup : RuntimeController fl → ℕ → Step fl
  tick_backup m now =
      if is_some m.backup_deadline && (not (is_idle m.state.mode) || is_due m.backup_deadline now)
      then ask (record m { backup_deadline = none }) (emit (is_idle m.state.mode) write_auto_backup)
      else quiet m

  -- A tick after its cooldown.
  unfoldable pub tick_rest : Env → RuntimeController fl → ℕ → Step fl
  tick_rest env m now =
      tick_status m now
      &> (λ n. tick_host_status n now)
      &> (λ n. flush_values env (refresh_values n now))
      &> (λ n. tick_time_sync n now)
      &> (λ n. tick_periodic_sync n now)
      &> (λ n. tick_tap_stats n now)
      &> λ n. tick_backup n now

  unfoldable pub tick : Env → RuntimeController fl → ℕ → Step fl
  tick env m now = tick_cooldown m now &> λ n. tick_rest env n now

  abbrev known_with : Option DeviceInfo → List String → List String
  known_with none known = known
  known_with (some info) known = insert_known info.device_id known

  unfoldable pub hear_sync :
      RuntimeController fl
      → Bool
      → CounterState
      → (time_str error : Option String) → ℕ
      → RuntimeController fl
  hear_sync m false counters time_str error now = record m {
    state = record (m.state) { last_sync_error = error };
  }
  hear_sync m true counters time_str error now = record m {
    state = record (m.state) {
      counters = counters;
      pc_counters = some counters;
      esp_counters = some counters;
      last_sync_time = time_str;
      last_sync_error = none;
      nvs_restore_pending = false;
    };
    last_synced_counters = some counters;
    last_periodic_sync = now;
    last_periodic_time_sync = now;
    known_devices = known_with m.state.device_info m.known_devices;
  }

  abbrev pub after_sync : RuntimeMode → RuntimeMode
  after_sync sync = idle
  after_sync mode = mode

  -- Back to idle, with the backup armed when a play came before the sync.
  unfoldable pub settle_sync : RuntimeController fl → ℕ → Step fl
  settle_sync m now =
      let mode = after_sync m.state.mode in
      ask
        (record m {
          state = record (m.state) { mode = mode };
          backup_after_sync = false;
          backup_deadline =
              if m.backup_after_sync && is_idle mode
              then some (now + auto_backup_delay)
              else m.backup_deadline;
        })
        (emit (is_idle mode) (set_storage_writes_allowed true))

  unfoldable pub sync_completed :
      RuntimeController fl → Bool → CounterState → (time_str error : Option String) → ℕ → Step fl
  sync_completed m success counters time_str error now =
      settle_sync (hear_sync m success counters time_str error now) now

  -- `HashMap::insert` of the screens' layouts
  unfoldable pub insert_layout : Screen → Layout → List (Screen × Layout) → List (Screen × Layout)
  insert_layout screen layout [] = (screen, layout) ∷ []
  insert_layout screen layout ((t, l) ∷ rest) =
      if screen_to_wire t == screen_to_wire screen
      then (screen, layout) ∷ rest
      else (t, l) ∷ insert_layout screen layout rest

  unfoldable pub insert_layouts :
      List (Screen × Layout) → List (Screen × Layout) → List (Screen × Layout)
  insert_layouts [] own = own
  insert_layouts ((screen, layout) ∷ rest) own =
      insert_layouts rest (insert_layout screen layout own)

  abbrev or_else : {A : Type 0} → Option A → Option A → Option A
  or_else none old = old
  or_else (some x) old = some x

  abbrev or_config : Option DeviceConfig → DeviceConfig → DeviceConfig
  or_config none old = old
  or_config (some cfg) old = cfg

  unfoldable pub sqlite_reconnected :
      RuntimeController fl
      → Option DeviceConfig
      → List (Screen × Layout)
      → Option CounterState
      → Step fl
  sqlite_reconnected m config layouts stored_device =
      ask
        (record m {
          state = record (m.state) {
            storage_error = none;
            config = or_config config m.state.config;
            custom_layouts = insert_layouts layouts m.state.custom_layouts;
            pc_counters = or_else stored_device m.state.pc_counters;
          };
        })
        (refresh_tap_history ∷ [])

  unfoldable pub sqlite_error : RuntimeController fl → String → RuntimeController fl
  sqlite_error m message = record m { state = record (m.state) { storage_error = some message } }
