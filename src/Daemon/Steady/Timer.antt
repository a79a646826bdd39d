-- ===== src/Daemon/Steady/Timer.antt =====
-- The pieces of `Tick` and what syncs and storage report (desktop/daemon/src/runtime.rs).
use opad.Tap.Float.{Float}
use opad.Layout.{Screen, Layout}
use opad.Model.Config.{DeviceConfig}
use opad.Model.Counters.{CounterState}
use opad.Daemon.State.{may_touch_pad, pad_guard}
use opad.Daemon.Controller.{RuntimeController, Env}
use opad.Daemon.Step.{quiet}
use opad.Daemon.Attempts.{publish_tap_attempt, publish_tap_history}
use opad.Daemon.Tick.{
  tick_cooldown, tick_status, tick_host_status, refresh_values, flush_values, tick_time_sync,
  tick_periodic_sync, tick_tap_stats, tick_backup, tick, tick_rest, hear_sync, settle_sync,
  sync_completed, sqlite_reconnected, sqlite_error,
}
use opad.Daemon.Steady.{Steady, Heeds, &>-Steady, &>-Heeds}
use opad.Prelude.{ℕ, Bool, Option, String, List, arith}

module _ (fl : Float) (m : RuntimeController fl) (now : ℕ) where
  pub tick_status-Steady : Steady m (tick_status fl m now)
  unfolding tick_status
  tick_status-Steady = ground arith

  pub tick_status-Heeds : Heeds m (tick_status fl m now)
  unfolding tick_status may_touch_pad pad_guard
  tick_status-Heeds = ground arith

  pub tick_host_status-Steady : Steady m (tick_host_status fl m now)
  unfolding tick_host_status
  tick_host_status-Steady = ground arith

  pub tick_host_status-Heeds : Heeds m (tick_host_status fl m now)
  unfolding tick_host_status may_touch_pad pad_guard
  tick_host_status-Heeds = ground arith

  pub tick_time_sync-Steady : Steady m (tick_time_sync fl m now)
  unfolding tick_time_sync
  tick_time_sync-Steady = ground arith

  pub tick_time_sync-Heeds : Heeds m (tick_time_sync fl m now)
  unfolding tick_time_sync may_touch_pad pad_guard
  tick_time_sync-Heeds = ground arith

  pub tick_periodic_sync-Steady : Steady m (tick_periodic_sync fl m now)
  unfolding tick_periodic_sync
  tick_periodic_sync-Steady = ground arith

  pub tick_periodic_sync-Heeds : Heeds m (tick_periodic_sync fl m now)
  unfolding tick_periodic_sync may_touch_pad pad_guard
  tick_periodic_sync-Heeds = ground arith

  pub tick_tap_stats-Steady : Steady m (tick_tap_stats fl m now)
  unfolding tick_tap_stats
  tick_tap_stats-Steady = ground arith

  pub tick_tap_stats-Heeds : Heeds m (tick_tap_stats fl m now)
  unfolding tick_tap_stats may_touch_pad pad_guard
  tick_tap_stats-Heeds = ground arith

  pub tick_backup-Steady : Steady m (tick_backup fl m now)
  unfolding tick_backup
  tick_backup-Steady = ground arith

  pub tick_backup-Heeds : Heeds m (tick_backup fl m now)
  unfolding tick_backup may_touch_pad pad_guard
  tick_backup-Heeds = ground arith

  pub tick_cooldown-Heeds : Heeds m (tick_cooldown fl m now)
  unfolding tick_cooldown may_touch_pad pad_guard
  tick_cooldown-Heeds = ground arith

  pub settle_sync-Heeds : Heeds m (settle_sync fl m now)
  unfolding settle_sync may_touch_pad pad_guard
  settle_sync-Heeds = ground arith

module _ (fl : Float) (env : Env) (m : RuntimeController fl) (now : ℕ) where
  pub show_values-Steady : Steady m (flush_values fl env (refresh_values fl m now))
  unfolding flush_values refresh_values publish_tap_attempt publish_tap_history
  show_values-Steady = ground arith

  pub show_values-Heeds : Heeds m (flush_values fl env (refresh_values fl m now))
  unfolding flush_values refresh_values publish_tap_attempt publish_tap_history may_touch_pad
      pad_guard
  show_values-Heeds = ground arith

module _ (fl : Float) (env : Env) (m : RuntimeController fl) (now : ℕ) where
  pub tick_rest-Steady : Steady m (tick_rest fl env m now)
  unfolding tick_rest
  tick_rest-Steady =
      &>-Steady
        (&>-Steady
          (&>-Steady
            (&>-Steady
              (&>-Steady
                (&>-Steady (tick_status-Steady fl m now) (λ n. tick_host_status-Steady fl n now))
                (λ n. show_values-Steady fl env n now))
              (λ n. tick_time_sync-Steady fl n now))
            (λ n. tick_periodic_sync-Steady fl n now))
          (λ n. tick_tap_stats-Steady fl n now))
        (λ n. tick_backup-Steady fl n now)

  pub tick_rest-Heeds : Heeds m (tick_rest fl env m now)
  unfolding tick_rest
  tick_rest-Heeds =
      &>-Heeds
        (&>-Heeds
          (&>-Heeds
            (&>-Heeds
              (&>-Heeds
                (&>-Heeds (tick_status-Heeds fl m now) (λ n. tick_host_status-Heeds fl n now))
                (λ n. show_values-Heeds fl env n now))
              (λ n. tick_time_sync-Heeds fl n now))
            (λ n. tick_periodic_sync-Heeds fl n now))
          (λ n. tick_tap_stats-Heeds fl n now))
        (λ n. tick_backup-Heeds fl n now)

module _ (fl : Float) (env : Env) (m : RuntimeController fl) (now : ℕ) where
  pub tick-Heeds : Heeds m (tick fl env m now)
  unfolding tick
  tick-Heeds = &>-Heeds (tick_cooldown-Heeds fl m now) (λ n. tick_rest-Heeds fl env n now)

module _ (fl : Float) (m : RuntimeController fl) where
  pub sync_completed-Heeds :
      (success : Bool) (counters : CounterState) (time_str error : Option String) (now : ℕ)
      → Heeds m (sync_completed fl m success counters time_str error now)
  unfolding sync_completed hear_sync settle_sync may_touch_pad pad_guard
  sync_completed-Heeds success counters time_str error now = ground arith

  pub sqlite_reconnected-Steady :
      (config : Option DeviceConfig) (layouts : List (Screen × Layout))
      (stored : Option CounterState)
      → Steady m (sqlite_reconnected fl m config layouts stored)
  unfolding sqlite_reconnected
  sqlite_reconnected-Steady config layouts stored = ground arith

  pub sqlite_error-Steady : (message : String) → Steady m (quiet (sqlite_error fl m message))
  unfolding sqlite_error
  sqlite_error-Steady message = ground arith

  pub sqlite_reconnected-Heeds :
      (config : Option DeviceConfig) (layouts : List (Screen × Layout))
      (stored : Option CounterState)
      → Heeds m (sqlite_reconnected fl m config layouts stored)
  unfolding sqlite_reconnected may_touch_pad pad_guard
  sqlite_reconnected-Heeds config layouts stored = ground arith

  pub sqlite_error-Heeds : (message : String) → Heeds m (quiet (sqlite_error fl m message))
  unfolding sqlite_error may_touch_pad pad_guard
  sqlite_error-Heeds message = ground arith
