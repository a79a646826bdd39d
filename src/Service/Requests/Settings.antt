-- ===== src/Service/Requests/Settings.antt =====
-- `UpdateConfig`, `SetLayout` and `ResetLayout` (desktop/daemon/src/ipc_handlers.rs).
use opad.Tap.Float.{Float}
use opad.Layout.{Screen, Layout, screen_to_wire, uses_per_second}
use opad.Layout
use opad.Model.Config.{DeviceConfig}
use opad.Model.Config
use opad.Daemon.Tick.{insert_layout}
use opad.Service.Store.{Storage, save_config, save_layout, delete_layout}
use opad.Service.Link.{
  PadCall, Shared, Outside, LayoutReply, layout_ack, layout_not_sent, layout_timed_out,
  layout_closed, in_storage, send_config, send_layout, reset_layout,
}
use opad.Service.Requests.{
  IpcResponse, Handled, in_play, returns_if, first_return, unless, refuse_if_pad_guarded, error,
  operation_rejected, operation_deferred, config_updated, layout_applied,
}
use opad.Prelude.{
  Bool, true, false, not, ◌&&◌, ◌||◌, Option, none, some, List, [], ◌∷◌, ◌++◌, ◌==◌, Result, ok,
  err, if◌then◌else◌,
}

abbrev pub refused {ℓ} : {E A : Type ℓ} → Result E A → Bool
refused (ok a) = false
refused (err e) = true

-- What waits until the pad is idle: keys, pins and debounce.
unfoldable pub keys_or_debounce_changed : DeviceConfig → DeviceConfig → Bool
keys_or_debounce_changed old new =
    not (old.key1_hid_usage == new.key1_hid_usage)
    || (not (old.key2_hid_usage == new.key2_hid_usage)
        || (not (old.debounce_us == new.debounce_us)
            || (not (old.key1_gpio == new.key1_gpio) || not (old.key2_gpio == new.key2_gpio))))

unfoldable pub remove_layout : Screen → List (Screen × Layout) → List (Screen × Layout)
remove_layout screen [] = []
remove_layout screen ((t, l) ∷ rest) =
    let others = remove_layout screen rest in
    if screen_to_wire t == screen_to_wire screen then others else (t, l) ∷ others

module _ (fl : Float) where
  abbrev with_config : Shared fl → DeviceConfig → Shared fl
  with_config sh cfg = record sh { state = record (sh.state) { config = cfg } }

  abbrev queue_config : Shared fl → DeviceConfig → Shared fl
  queue_config sh cfg = record sh {
    pending_ops = record (sh.pending_ops) { pending_config = some cfg };
  }

  abbrev queue_layout : Shared fl → Screen × Option Layout → Shared fl
  queue_layout sh entry = record sh {
    pending_ops = record (sh.pending_ops) {
      pending_layouts = sh.pending_ops.pending_layouts ++ (entry ∷ []);
    };
  }

  abbrev with_layouts : Shared fl → List (Screen × Layout) → Shared fl
  with_layouts sh layouts = record sh { state = record (sh.state) { custom_layouts = layouts } }

  -- During play the pad's RAM only, or nothing yet.
  unfoldable pub apply_in_play : Outside fl → Shared fl → DeviceConfig → Handled fl
  unfolding keys_or_debounce_changed
  apply_in_play out sh cfg =
      if keys_or_debounce_changed sh.state.config cfg
      then (
        queue_config sh cfg,
        [],
        operation_deferred "Key mapping, pin and debounce changes are deferred until IDLE mode",
      )
      else (
        queue_config (with_config (out.meanwhile 0 sh) cfg) cfg,
        send_config cfg ∷ [],
        config_updated cfg true,
      )

  -- A database that refuses the configuration ends the request; without one it is applied.
  abbrev pub config_saved : Option Storage → DeviceConfig → Option (Option Storage)
  config_saved none cfg = some none
  config_saved (some s) cfg = elim (save_config s cfg) [ ok s' ↦ some (some s') | err e ↦ none ]

  abbrev pub apply_saved :
      Outside fl → Shared fl → DeviceConfig → Option (Option Storage) → Handled fl
  apply_saved out sh cfg none = (sh, [], error "Failed to save config")
  apply_saved out sh cfg (some storage) = (
    out.meanwhile 0 (with_config (record sh { storage = storage }) cfg),
    send_config cfg ∷ [],
    config_updated cfg false,
  )

  unfoldable pub update_config : Outside fl → Shared fl → DeviceConfig → Handled fl
  unfolding refuse_if_pad_guarded Config.validate apply_in_play
  update_config out sh cfg =
      let idle = apply_saved out sh cfg (config_saved sh.storage cfg) in
      let play = apply_in_play out sh cfg in
      unless fl
        (first_return (
          refuse_if_pad_guarded fl sh.state
          ∷ returns_if (refused (Config.validate cfg)) (operation_rejected "Invalid configuration")
          ∷ []))
        sh (if in_play sh.state.mode then play else idle)

  -- `wait_for_layout_ack`, after the layout was sent
  unfoldable pub wait_for_layout_ack : Screen → LayoutReply → IpcResponse
  wait_for_layout_ack screen layout_not_sent = error "Failed to send layout"
  wait_for_layout_ack screen layout_timed_out = error "The pad did not confirm the layout within 3s"
  wait_for_layout_ack screen layout_closed = error "Device event stream closed"
  wait_for_layout_ack screen (layout_ack true message) = layout_applied screen message
  wait_for_layout_ack screen (layout_ack false message) =
      operation_rejected "The pad rejected the layout"

  -- A layout that is known: to the pad's RAM during play, else to the database and the pad.
  unfoldable pub push_layout :
      Outside fl → Shared fl → Screen → Option Layout → PadCall → Shared fl → Handled fl
  unfolding wait_for_layout_ack
  push_layout out before screen entry call saved =
      let play : Handled fl = (
        queue_layout (out.meanwhile 0 before) (screen, entry),
        call ∷ [],
        layout_applied screen "In pad RAM; will be saved after gameplay",
      ) in
      let away : Handled fl =
        (saved, [], layout_applied screen "Saved; for when the pad connects") in
      let sent : Handled fl =
        (out.meanwhile 0 saved, call ∷ [], wait_for_layout_ack screen out.layout_reply) in
      if in_play before.state.mode
      then play
      else if before.state.device_connected
      then sent
      else away

  unfoldable pub set_layout : Outside fl → Shared fl → Screen → Layout → Handled fl
  unfolding refuse_if_pad_guarded Layout.validate uses_per_second push_layout
  set_layout out sh screen layout =
      let known = with_layouts sh (insert_layout fl screen layout sh.state.custom_layouts) in
      let saved =
        in_storage fl (λ s. save_layout s (screen_to_wire screen) (out.to_json layout)) known in
      unless fl
        (first_return (
          refuse_if_pad_guarded fl sh.state
          ∷ returns_if (refused (Layout.validate layout)) (operation_rejected "Invalid layout")
          ∷ returns_if
              (uses_per_second layout
                && (sh.state.device_connected && not out.supports_tap_rate_per_second))
              (operation_rejected "This pad's firmware shows tap rates in KPM only")
          ∷ []))
        sh (push_layout out known screen (some layout) (send_layout screen layout) saved)

  unfoldable pub clear_layout : Outside fl → Shared fl → Screen → Handled fl
  unfolding refuse_if_pad_guarded push_layout remove_layout
  clear_layout out sh screen =
      let known = with_layouts sh (remove_layout screen sh.state.custom_layouts) in
      let saved = in_storage fl (λ s. delete_layout s (screen_to_wire screen)) known in
      unless fl (refuse_if_pad_guarded fl sh.state) sh
        (push_layout out known screen none (reset_layout screen) saved)
