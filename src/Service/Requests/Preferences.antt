-- ===== src/Service/Requests/Preferences.antt =====
-- `SetTapHistoryPeriod`, `SetUpdateChannel` and `SetUpdateEnabled`
-- (desktop/daemon/src/ipc_handlers.rs): settings that are written at once if the database allows it.
use opad.Tap.Float.{Float}
use opad.Tap.Values.{TapHistory}
use opad.Service.Store.{Storage, StorageError, is_long_history, set_app_state, set_tap_history_days}
use opad.Service.Link.{Shared, Outside, in_storage}
use opad.Service.Requests.{
  IpcResponse, Handled, returns_if, first_return, unless, error, operation_rejected,
  operation_deferred, config_updated, tap_stats, update_check_started,
}
use opad.Service.Requests.Settings.{refused}
use opad.Prelude.{
  ℕ, Bool, false, not, ◌&&◌, Option, none, some, [], ◌∷◌, String, str_eq, is_some, Result, ok, err,
  if◌then◌else◌,
}

pub data UpdateComponent : Type 0 where
  app tosu firmware : UpdateComponent

-- The key of an updater's switch; firmware has none.
abbrev pub enabled_key : UpdateComponent → Option String
enabled_key app = some "update.app.enabled"
enabled_key tosu = some "update.tosu.enabled"
enabled_key firmware = none

abbrev pub is_written : (Storage → Result StorageError Storage) → Option Storage → Bool
is_written write none = false
is_written write (some s) = not (refused (write s))

module _ (fl : Float) where
  abbrev pub history_of : Outside fl → Option Storage → ℕ → Option (TapHistory fl)
  history_of out none days = none
  history_of out (some s) days = out.tap_history s days

  abbrev pub with_period : Shared fl → ℕ → Option (TapHistory fl) → Bool → Shared fl
  with_period sh days history saved = record sh {
    state = record (sh.state) {
      tap = record (sh.state.tap) {
        snapshot = record (sh.state.tap.snapshot) { period_days = days; history = history };
        period_unsaved = not saved;
      };
    };
  }

  -- A write that the database blocks leaves the period in memory, marked as unsaved.
  unfoldable pub set_tap_history_period : Outside fl → Shared fl → ℕ → Handled fl
  unfolding set_tap_history_days
  set_tap_history_period out sh days =
      unless fl (returns_if (is_long_history days) (error "History period is too long")) sh (
        with_period (in_storage fl (λ s. set_tap_history_days out.to_text s days) sh) days
            (history_of out sh.storage days)
            (is_written (λ s. set_tap_history_days out.to_text s days) sh.storage),
        [],
        tap_stats,
      )

  -- A setting in the database, with the response to a write that is made.
  abbrev pub save_setting : Shared fl → String → String → IpcResponse → Option Storage → Handled fl
  save_setting sh key value done none = (sh, [], error "Storage is unavailable")
  save_setting sh key value done (some s) = elim (set_app_state s key value) [
    | ok s' ↦ (record sh { storage = some s' }, [], done)
    | err e ↦ (sh, [], operation_deferred "Cannot save the update setting right now")
  ]

  abbrev pub channel_response : Option (Result String Unit) → IpcResponse
  channel_response none = error "The update worker is not running"
  channel_response (some (ok u)) = update_check_started
  channel_response (some (err e)) = error e

  unfoldable pub set_update_channel : Outside fl → Shared fl → String → Handled fl
  unfolding set_app_state
  set_update_channel out sh channel =
      unless fl
        (first_return (
          returns_if (not (str_eq channel "stable") && not (str_eq channel "beta"))
            (operation_rejected "Unknown update channel")
          ∷ returns_if (not (is_some out.updates)) (error "The update worker is not running")
          ∷ []))
        sh (save_setting sh "update.channel" channel (channel_response out.updates) sh.storage)

  abbrev pub save_enabled : Shared fl → Bool → Option String → Handled fl
  save_enabled sh enabled none =
      (sh, [], operation_rejected "Firmware updates are consented to individually, not enabled")
  save_enabled sh enabled (some key) =
      save_setting sh key (if enabled then "1" else "0") (config_updated sh.state.config false)
        sh.storage

  unfoldable pub set_update_enabled : Shared fl → UpdateComponent → Bool → Handled fl
  unfolding set_app_state
  set_update_enabled sh component enabled = save_enabled sh enabled (enabled_key component)
