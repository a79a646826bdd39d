-- ===== src/Service/Requests/Handle.antt =====
-- `handle_ipc_request` (desktop/daemon/src/ipc_handlers.rs) for the requests that change the shared
-- state, write to the database or send something to the pad. The handshake, the requests that only
-- read, the live key view and those of flashing and of the update worker are left out.
use opad.Tap.Float.{Float}
use opad.Layout.{Screen, Layout}
use opad.Model.Config.{DeviceConfig}
use opad.Service.Link.{Shared, Outside}
use opad.Service.Requests.{Handled}
use opad.Service.Requests.Settings.{update_config, set_layout, clear_layout}
use opad.Service.Requests.Presses.{
  force_sync, reset_counters, restore_device_from_pc, import_pc_from_device,
}
use opad.Model.Backup.{JsonBackup}
use opad.Service.Requests.Import.{import_backup}
use opad.Service.Requests.Owner.{resolve_takeover, resolve_replacement}
use opad.Service.Requests.Preferences.{
  UpdateComponent, set_tap_history_period, set_update_channel, set_update_enabled,
}
use opad.Service.Requests.Commands.{
  reset_latency, test_board, find_pin, show_animation, restart, start_calibration,
  cancel_calibration, trigger_easter_egg,
}
use opad.Prelude.{ℕ, Bool, String}

pub data IpcRequest : Type 0 where
  update_config_request : DeviceConfig → IpcRequest
  set_layout_request : Screen → Layout → IpcRequest
  reset_layout_request : Screen → IpcRequest
  force_sync_request : IpcRequest
  reset_counters_request : Bool → IpcRequest
  restore_device_from_pc_request : Bool → IpcRequest
  import_pc_from_device_request : Bool → IpcRequest
  import_backup_request : JsonBackup → Bool → IpcRequest
  set_tap_history_period_request : ℕ → IpcRequest
  set_update_channel_request : String → IpcRequest
  set_update_enabled_request : UpdateComponent → Bool → IpcRequest
  reset_latency_stats_request run_board_test_request restart_pad_request
        start_he_calibration_request cancel_he_calibration_request trigger_easter_egg_request :
      IpcRequest
  detect_pin_request : (key_id timeout_ms exclude_gpio : ℕ) → IpcRequest
  play_animation_request : ℕ → String → IpcRequest
  resolve_takeover_request : Bool → Bool → IpcRequest
  resolve_replacement_request : Bool → IpcRequest

unfoldable pub handle_ipc_request : (fl : Float) → Outside fl → Shared fl → IpcRequest → Handled fl
handle_ipc_request fl out sh (update_config_request cfg) = update_config fl out sh cfg
handle_ipc_request fl out sh (set_layout_request screen layout) = set_layout fl out sh screen layout
handle_ipc_request fl out sh (reset_layout_request screen) = clear_layout fl out sh screen
handle_ipc_request fl out sh force_sync_request = force_sync fl out sh
handle_ipc_request fl out sh (reset_counters_request confirm) = reset_counters fl out sh confirm
handle_ipc_request fl out sh (restore_device_from_pc_request confirm) =
    restore_device_from_pc fl out sh confirm
handle_ipc_request fl out sh (import_pc_from_device_request confirm) =
    import_pc_from_device fl out sh confirm
handle_ipc_request fl out sh (import_backup_request b confirm) = import_backup fl out sh b confirm
handle_ipc_request fl out sh (set_tap_history_period_request days) =
    set_tap_history_period fl out sh days
handle_ipc_request fl out sh (set_update_channel_request channel) =
    set_update_channel fl out sh channel
handle_ipc_request fl out sh (set_update_enabled_request component enabled) =
    set_update_enabled fl sh component enabled
handle_ipc_request fl out sh reset_latency_stats_request = reset_latency fl out sh
handle_ipc_request fl out sh run_board_test_request = test_board fl out sh
handle_ipc_request fl out sh (detect_pin_request key_id timeout_ms exclude_gpio) =
    find_pin fl out sh key_id timeout_ms exclude_gpio
handle_ipc_request fl out sh (play_animation_request animation grade) =
    show_animation fl out sh animation grade
handle_ipc_request fl out sh restart_pad_request = restart fl out sh
handle_ipc_request fl out sh start_he_calibration_request = start_calibration fl out sh
handle_ipc_request fl out sh cancel_he_calibration_request = cancel_calibration fl out sh
handle_ipc_request fl out sh trigger_easter_egg_request = trigger_easter_egg fl out sh
handle_ipc_request fl out sh (resolve_takeover_request take_over keep) =
    resolve_takeover fl out sh take_over keep
handle_ipc_request fl out sh (resolve_replacement_request restore) =
    resolve_replacement fl out sh restore
