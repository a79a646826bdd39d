-- ===== src/Daemon/Writes/Trace.antt =====
-- Every event of desktop/daemon/src/runtime.rs, and every sequence of them.
use opad.Tap.Float.{Float}
use opad.Daemon.Events
use opad.Daemon.Events.{RuntimeAction, RuntimeEvent, TosuFrame, set_storage_writes_allowed}
use opad.Daemon.Controller.{RuntimeController, Env}
use opad.Daemon.Step.{Step, ◌&>◌, quiet}
use opad.Daemon.Tosu.{tosu_connection_changed}
use opad.Daemon.Tick.{tick}
use opad.Daemon.Dispatch.{on_event}
use opad.Daemon.Steady.Timer.{tick_rest-Steady, sqlite_reconnected-Steady, sqlite_error-Steady}
use opad.Daemon.Steady.Pad.{
  device_ownership-Steady, device_disconnected-Steady, device_counters-Steady, device_status-Steady,
  device_he_calibration_progress-Steady, device_log_batch-Steady,
}
use opad.Daemon.Steady.Play.{
  tosu_keys-Steady, pad_presses-Steady, hear_press_times-Steady, osu_active_changed-Steady,
  tell_connection-Steady,
}
use opad.Daemon.State.{is_idle}
use opad.Daemon.Steady.{is_idle_write, is_store_write}
use opad.Daemon.Writes.Saves.{is_connection, on_event-saves, any-is_store_write}
use opad.Prelude.{arith, ◌⊎◌, inl, inr, Bool-cases, false, ◌≡◌, true, any, ℕ, refl, List, [], ◌∷◌}
use opad.Daemon.Writes.{
  Gated, WritesIdle, set_writes, Steady-Gated, &>-Gated, Silent-WritesIdle, Steady-WritesIdle,
  &>-WritesIdle,
}
use opad.Daemon.Writes.Pieces.{
  device_connected-Steady, tosu_telemetry-Gated, tosu_telemetry-Silent, hear_connection-Gated,
  hear_connection-Silent, tell_connection-Silent, tick_cooldown-Gated, tick_cooldown-Silent,
  sync_completed-Gated, sync_completed-Silent, quiet-Silent,
}

module _ (fl : Float) where
  -- The events one after another, each with its surroundings and its time.
  unfoldable pub run : RuntimeController fl → List (Env × RuntimeEvent fl × ℕ) → Step fl
  run m [] = quiet m
  run m ((env, event, now) ∷ rest) = on_event fl env m event now &> λ n. run n rest

  quiet-Gated : (m : RuntimeController fl) → Gated m (quiet m)
  unfolding set_writes
  quiet-Gated m = record { gate = refl }

  -- One event: a flag that follows the mode before it follows the mode after it.
  on_event-Gated :
      (env : Env) (m : RuntimeController fl) (event : RuntimeEvent fl) (now : ℕ)
      → Gated m (on_event fl env m event now)
  unfolding on_event tosu_connection_changed tick
  on_event-Gated env m (Events.device_connected info cfg) now =
      Steady-Gated (device_connected-Steady fl env m info cfg now)
  on_event-Gated env m (Events.device_ownership owner_id) now =
      Steady-Gated (device_ownership-Steady fl m owner_id)
  on_event-Gated env m Events.device_disconnected now =
      Steady-Gated (device_disconnected-Steady fl m)
  on_event-Gated env m (Events.device_counters report) now =
      Steady-Gated (device_counters-Steady fl m report)
  on_event-Gated env m (Events.device_status latency cal) now =
      Steady-Gated (device_status-Steady fl m latency cal)
  on_event-Gated env m (Events.device_he_calibration_progress prog) now =
      Steady-Gated (device_he_calibration_progress-Steady fl m prog)
  on_event-Gated env m (Events.device_layout_ack screen acked message) now = quiet-Gated m
  on_event-Gated env m (Events.device_log_batch events) now =
      Steady-Gated (device_log_batch-Steady fl m events)
  on_event-Gated env m (Events.tosu_telemetry frame) now = tosu_telemetry-Gated fl env m frame now
  on_event-Gated env m (Events.tosu_keys keys) now = Steady-Gated (tosu_keys-Steady fl m keys)
  on_event-Gated env m (Events.pad_press_times on) now =
      Steady-Gated (hear_press_times-Steady fl m on)
  on_event-Gated env m (Events.pad_presses now_us batch dropped received) now =
      Steady-Gated (pad_presses-Steady fl m now_us batch received)
  on_event-Gated env m (Events.tosu_connection_changed connected) now =
      &>-Gated (hear_connection-Gated fl env m connected now)
        (λ n. Steady-Gated (tell_connection-Steady fl n connected now))
  on_event-Gated env m (Events.osu_active_changed active) now =
      Steady-Gated (osu_active_changed-Steady fl m active now)
  on_event-Gated env m (Events.tick at) now =
      &>-Gated (tick_cooldown-Gated fl m at) (λ n. Steady-Gated (tick_rest-Steady fl env n at))
  on_event-Gated env m (Events.sync_completed success counters time_str error) now =
      sync_completed-Gated fl m success counters time_str error now
  on_event-Gated env m (Events.sqlite_reconnected config layouts stored) now =
      Steady-Gated (sqlite_reconnected-Steady fl m config layouts stored)
  on_event-Gated env m (Events.sqlite_error message) now =
      Steady-Gated (sqlite_error-Steady fl m message)

  on_event-WritesIdle :
      (env : Env) (m : RuntimeController fl) (event : RuntimeEvent fl) (now : ℕ)
      → WritesIdle (on_event fl env m event now)
  unfolding on_event tosu_connection_changed tick
  on_event-WritesIdle env m (Events.device_connected info cfg) now =
      Steady-WritesIdle (device_connected-Steady fl env m info cfg now)
  on_event-WritesIdle env m (Events.tosu_telemetry frame) now =
      Silent-WritesIdle (tosu_telemetry-Silent fl env m frame now)
  on_event-WritesIdle env m (Events.tosu_connection_changed connected) now =
      &>-WritesIdle (hear_connection-Silent fl env m connected now)
        (λ n. Silent-WritesIdle (tell_connection-Silent fl n connected now))
  on_event-WritesIdle env m (Events.tick at) now =
      &>-WritesIdle (tick_cooldown-Silent fl m at)
        (λ n. Steady-WritesIdle (tick_rest-Steady fl env n at))
  on_event-WritesIdle env m (Events.sync_completed success counters time_str error) now =
      Silent-WritesIdle (sync_completed-Silent fl m success counters time_str error now)
  on_event-WritesIdle env m (Events.device_log_batch events) now =
      Steady-WritesIdle (device_log_batch-Steady fl m events)
  on_event-WritesIdle env m (Events.device_status latency cal) now =
      Steady-WritesIdle (device_status-Steady fl m latency cal)
  on_event-WritesIdle env m (Events.device_he_calibration_progress prog) now =
      Steady-WritesIdle (device_he_calibration_progress-Steady fl m prog)
  on_event-WritesIdle env m (Events.osu_active_changed active) now =
      Steady-WritesIdle (osu_active_changed-Steady fl m active now)
  on_event-WritesIdle env m (Events.sqlite_reconnected config layouts stored) now =
      Steady-WritesIdle (sqlite_reconnected-Steady fl m config layouts stored)
  on_event-WritesIdle env m (Events.device_ownership owner_id) now =
      Silent-WritesIdle (quiet-Silent fl _)
  on_event-WritesIdle env m Events.device_disconnected now = Silent-WritesIdle (quiet-Silent fl _)
  on_event-WritesIdle env m (Events.device_counters report) now =
      Silent-WritesIdle (quiet-Silent fl _)
  on_event-WritesIdle env m (Events.device_layout_ack screen acked message) now =
      Silent-WritesIdle (quiet-Silent fl _)
  on_event-WritesIdle env m (Events.tosu_keys keys) now = Silent-WritesIdle (quiet-Silent fl _)
  on_event-WritesIdle env m (Events.pad_press_times on) now = Silent-WritesIdle (quiet-Silent fl _)
  on_event-WritesIdle env m (Events.pad_presses now_us batch dropped received) now =
      Silent-WritesIdle (quiet-Silent fl _)
  on_event-WritesIdle env m (Events.sqlite_error message) now =
      Silent-WritesIdle (quiet-Silent fl _)

  -- If an event asks for a write to the database, then the daemon is idle after the event, or a pad
  -- connects and the only write that is asked for saves the configuration taken over from it.
  pub on_event_writes :
      (env : Env) (m : RuntimeController fl) (event : RuntimeEvent fl) (now : ℕ)
      → any is_store_write (on_event fl env m event now).1 ≡ true
      → (is_idle (on_event fl env m event now).0.state.mode ≡ true)
        ⊎ ((is_connection event ≡ true)
            × (any is_idle_write (on_event fl env m event now).1 ≡ false))
  on_event_writes env m event now h =
      let actions = (on_event fl env m event now).1 in
      elim (Bool-cases (any is_idle_write actions)) [
        | inl e ↦ inl ((on_event-WritesIdle env m event now).when e)
        | inr e ↦
            let saves = on_event-saves fl env m event now in
            let split = any-is_store_write actions in inr (ground (arith, saves, split, h, e), e)
      ]

  -- Over any sequence of events, from a controller whose flag follows its mode, the flag that the
  -- `SetStorageWritesAllowed` actions leave is on exactly when the mode is then idle or sync: the
  -- database stays locked through every play and every cooldown.
  pub run-Gated :
      (m : RuntimeController fl) (events : List (Env × RuntimeEvent fl × ℕ))
      → Gated m (run m events)
  unfolding run
  run-Gated m [] = quiet-Gated m
  run-Gated m ((env, event, now) ∷ rest) =
      &>-Gated (on_event-Gated env m event now) (λ n. run-Gated n rest)
