-- ===== src/Service/Requests/Guarded.antt =====
-- Which requests are refused for a pad that must be left alone
-- (desktop/daemon/src/ipc_handlers.rs).
use opad.Tap.Float.{Float}
use opad.Daemon.State.{GuardReason, pad_guard}
use opad.Service.Link.{Shared, Outside}
use opad.Service.Sync.{guard_text}
use opad.Service.Requests.{
  refusal, Handled, IpcResponse, error, unless, first_return, refuse_if_pad_guarded,
}
use opad.Service.Requests.Settings.{update_config, set_layout, clear_layout}
use opad.Service.Requests.Presses.{
  force_sync, reset_counters, restore_device_from_pc, import_pc_from_device,
}
use opad.Service.Requests.Import.{import_backup}
use opad.Service.Requests.Handle.{
  IpcRequest, handle_ipc_request, update_config_request, set_layout_request, reset_layout_request,
  force_sync_request, reset_counters_request, restore_device_from_pc_request,
  import_pc_from_device_request, import_backup_request, resolve_takeover_request,
  resolve_replacement_request, set_tap_history_period_request, set_update_channel_request,
  set_update_enabled_request, reset_latency_stats_request, run_board_test_request,
  restart_pad_request, start_he_calibration_request, cancel_he_calibration_request,
  trigger_easter_egg_request, detect_pin_request, play_animation_request,
}
use opad.Service.Requests.Commands.{show_animation, restart, start_calibration, cancel_calibration}
use opad.Prelude.{◌≡◌, ap, Bool, true, false, Option, some, List, [], ◌∷◌, arith}

-- It has no test of the pad's guard: the answers to the two prompts, the settings, and four commands.
abbrev pub is_unguarded : IpcRequest → Bool
is_unguarded (resolve_takeover_request take_over keep) = true
is_unguarded (resolve_replacement_request restore) = true
is_unguarded (set_tap_history_period_request days) = true
is_unguarded (set_update_channel_request channel) = true
is_unguarded (set_update_enabled_request component enabled) = true
is_unguarded reset_latency_stats_request = true
is_unguarded run_board_test_request = true
is_unguarded (detect_pin_request key_id timeout_ms exclude_gpio) = true
is_unguarded trigger_easter_egg_request = true
is_unguarded _ = false

module _ (fl : Float) (out : Outside fl) (sh : Shared fl) (reason : GuardReason fl) where
  refuse-some :
      pad_guard fl sh.state ≡ some reason
      → refuse_if_pad_guarded fl sh.state ≡ some (error (guard_text fl reason))
  unfolding refuse_if_pad_guarded
  refuse-some h = ap (refusal fl) h

  unless-guarded :
      (rest : List (Option IpcResponse)) (k : Handled fl)
      → pad_guard fl sh.state ≡ some reason
      → unless fl (first_return (refuse_if_pad_guarded fl sh.state ∷ rest)) sh k
        ≡ (sh, [], error (guard_text fl reason))
  unfolding unless
  unless-guarded rest k h = ap (λ r. unless fl (first_return (r ∷ rest)) sh k) (refuse-some h)

  unless-refused :
      (k : Handled fl)
      → pad_guard fl sh.state ≡ some reason
      → unless fl (refuse_if_pad_guarded fl sh.state) sh k ≡ (sh, [], error (guard_text fl reason))
  unfolding unless
  unless-refused k h = ap (λ r. unless fl r sh k) (refuse-some h)

  -- While the pad belongs to another install, or a replacement waits for an answer, each of these
  -- requests is refused with that reason, changes nothing and sends nothing: a configuration, a layout
  -- or its reset, a sync, a reset, a restore, an import from the pad or of a backup, an animation, a
  -- restart, and the start and the end of a calibration.
  pub handle_ipc_request-guarded :
      (req : IpcRequest)
      → pad_guard fl sh.state ≡ some reason
      → is_unguarded req ≡ false
      → handle_ipc_request fl out sh req ≡ (sh, [], error (guard_text fl reason))
  unfolding handle_ipc_request update_config set_layout clear_layout force_sync reset_counters
      restore_device_from_pc import_pc_from_device import_backup show_animation restart
      start_calibration cancel_calibration
  handle_ipc_request-guarded (update_config_request cfg) h k = unless-guarded _ _ h
  handle_ipc_request-guarded (set_layout_request screen layout) h k = unless-guarded _ _ h
  handle_ipc_request-guarded (reset_layout_request screen) h k = unless-refused _ h
  handle_ipc_request-guarded force_sync_request h k = unless-guarded _ _ h
  handle_ipc_request-guarded (reset_counters_request confirm) h k = unless-guarded _ _ h
  handle_ipc_request-guarded (restore_device_from_pc_request confirm) h k = unless-guarded _ _ h
  handle_ipc_request-guarded (import_pc_from_device_request confirm) h k = unless-guarded _ _ h
  handle_ipc_request-guarded (import_backup_request b confirm) h k = unless-guarded _ _ h
  handle_ipc_request-guarded (resolve_takeover_request take_over keep) h k = ground arith
  handle_ipc_request-guarded (resolve_replacement_request restore) h k = ground arith
  handle_ipc_request-guarded (play_animation_request animation grade) h k = unless-guarded _ _ h
  handle_ipc_request-guarded restart_pad_request h k = unless-guarded _ _ h
  handle_ipc_request-guarded start_he_calibration_request h k = unless-guarded _ _ h
  handle_ipc_request-guarded cancel_he_calibration_request h k = unless-guarded _ _ h
  handle_ipc_request-guarded (set_tap_history_period_request days) h k = ground arith
  handle_ipc_request-guarded (set_update_channel_request channel) h k = ground arith
  handle_ipc_request-guarded (set_update_enabled_request component enabled) h k = ground arith
  handle_ipc_request-guarded reset_latency_stats_request h k = ground arith
  handle_ipc_request-guarded run_board_test_request h k = ground arith
  handle_ipc_request-guarded (detect_pin_request key_id timeout_ms exclude_gpio) h k = ground arith
  handle_ipc_request-guarded trigger_easter_egg_request h k = ground arith
