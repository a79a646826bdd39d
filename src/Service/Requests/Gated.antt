-- ===== src/Service/Requests/Gated.antt =====
-- The requests while a map is played (desktop/daemon/src/ipc_handlers.rs).
use opad.Tap.Float.{Float}
use opad.Service.Link.{Shared, Outside, send_layout, reset_layout}
use opad.Service.Requests.{in_play}
use opad.Service.Requests.Settings.{update_config, set_layout, clear_layout}
use opad.Service.Requests.Presses.{
  force_sync, reset_counters, restore_device_from_pc, import_pc_from_device,
}
use opad.Service.Requests.Import.{import_backup}
use opad.Service.Requests.Owner.{resolve_takeover, resolve_replacement}
use opad.Service.Requests.Handle.{
  IpcRequest, handle_ipc_request, update_config_request, set_layout_request, reset_layout_request,
  force_sync_request, reset_counters_request, restore_device_from_pc_request,
  import_pc_from_device_request, import_backup_request, resolve_takeover_request,
  resolve_replacement_request, set_tap_history_period_request, set_update_channel_request,
  set_update_enabled_request, reset_latency_stats_request, run_board_test_request,
  restart_pad_request, start_he_calibration_request, cancel_he_calibration_request,
  trigger_easter_egg_request, detect_pin_request, play_animation_request,
}
use opad.Service.Requests.Preferences.{
  set_tap_history_period, set_update_channel, set_update_enabled, enabled_key,
}
use opad.Service.Requests.Commands.{
  reset_latency, test_board, find_pin, show_animation, restart, start_calibration,
  cancel_calibration, trigger_easter_egg,
}
use opad.Prelude.{ℕ, ◌≡◌, refl, true, false, none, some, arith}
use opad.Service.Requests.Quiet.{
  unless-IsGated, refused-IsGated, push_layout-IsGated, apply_in_play-IsGated, locked_period,
  save_setting-IsGated, save_enabled-IsGated, commanded-IsGated, latency-IsGated, saves_setting,
  is_open, IsGated,
}

module _ (fl : Float) (out : Outside fl) (sh : Shared fl) where
  -- While a map is played or its cooldown runs, and no other task interferes, none of the requests
  -- modelled writes to the database, provided for the three that only save a setting that the
  -- database is locked; and none sends counters or an owner to the pad or starts a calibration.
  pub handle_ipc_request-IsGated :
      (req : IpcRequest)
      → in_play sh.state.mode ≡ true
      → (saves_setting req ≡ true → is_open sh.storage ≡ false)
      → ((n : ℕ) (s : Shared fl) → out.meanwhile n s ≡ s)
      → IsGated fl sh (handle_ipc_request fl out sh req)
  unfolding handle_ipc_request update_config set_layout clear_layout force_sync reset_counters
      restore_device_from_pc import_pc_from_device import_backup resolve_takeover
      resolve_replacement set_tap_history_period set_update_channel set_update_enabled reset_latency
      test_board find_pin show_animation restart start_calibration cancel_calibration
      trigger_easter_egg
  handle_ipc_request-IsGated (update_config_request cfg) busy locked quiet =
      unless-IsGated _ sh _ (rw busy (apply_in_play-IsGated fl out sh cfg quiet))
  handle_ipc_request-IsGated (set_layout_request screen layout) busy locked quiet =
      unless-IsGated _ sh _ (
        push_layout-IsGated fl out sh _ _ screen (some layout) (send_layout screen layout) refl busy
          refl quiet)
  handle_ipc_request-IsGated (reset_layout_request screen) busy locked quiet =
      unless-IsGated _ sh _
        (push_layout-IsGated fl out sh _ _ screen none (reset_layout screen) refl busy refl quiet)
  handle_ipc_request-IsGated force_sync_request busy locked quiet =
      refused-IsGated _ sh _ (ground arith)
  handle_ipc_request-IsGated (reset_counters_request confirm) busy locked quiet =
      refused-IsGated _ sh _ (ground arith)
  handle_ipc_request-IsGated (restore_device_from_pc_request confirm) busy locked quiet =
      refused-IsGated _ sh _ (ground arith)
  handle_ipc_request-IsGated (import_pc_from_device_request confirm) busy locked quiet =
      refused-IsGated _ sh _ (ground arith)
  handle_ipc_request-IsGated (import_backup_request b confirm) busy locked quiet =
      refused-IsGated _ sh _ (ground arith)
  handle_ipc_request-IsGated (resolve_takeover_request take_over keep) busy locked quiet =
      refused-IsGated _ sh _ (ground arith)
  handle_ipc_request-IsGated (resolve_replacement_request restore) busy locked quiet =
      refused-IsGated _ sh _ (ground arith)
  handle_ipc_request-IsGated (set_tap_history_period_request days) busy locked quiet =
      unless-IsGated _ sh _ (record {
        storage = locked_period fl out sh out days sh.storage (locked refl);
        calls = refl;
      })
  handle_ipc_request-IsGated (set_update_channel_request channel) busy locked quiet =
      unless-IsGated _ sh _ (save_setting-IsGated fl out sh _ _ _ sh.storage refl (locked refl))
  handle_ipc_request-IsGated (set_update_enabled_request component enabled) busy locked quiet =
      save_enabled-IsGated fl out sh enabled (enabled_key component) (locked refl)
  handle_ipc_request-IsGated reset_latency_stats_request busy locked quiet =
      latency-IsGated fl out sh out.sent _ quiet
  handle_ipc_request-IsGated run_board_test_request busy locked quiet =
      unless-IsGated _ sh _ (commanded-IsGated fl out sh _ _ _ refl quiet)
  handle_ipc_request-IsGated (detect_pin_request key_id timeout_ms exclude_gpio) busy locked quiet =
      unless-IsGated _ sh _ (commanded-IsGated fl out sh _ _ _ refl quiet)
  handle_ipc_request-IsGated (play_animation_request animation grade) busy locked quiet =
      unless-IsGated _ sh _ (commanded-IsGated fl out sh _ _ _ refl quiet)
  handle_ipc_request-IsGated restart_pad_request busy locked quiet =
      unless-IsGated _ sh _ (commanded-IsGated fl out sh _ _ _ refl quiet)
  handle_ipc_request-IsGated start_he_calibration_request busy locked quiet =
      refused-IsGated _ sh _ (ground arith)
  handle_ipc_request-IsGated cancel_he_calibration_request busy locked quiet =
      unless-IsGated _ sh _ (commanded-IsGated fl out sh _ _ _ refl quiet)
  handle_ipc_request-IsGated trigger_easter_egg_request busy locked quiet =
      commanded-IsGated fl out sh _ _ _ refl quiet
