-- ===== src/Service/Requests/Presses.antt =====
-- `ForceSync`, `ResetCounters`, `RestoreDeviceFromPc` and `ImportPcFromDevice`
-- (desktop/daemon/src/ipc_handlers.rs).
use Prim.Native.String.{◌++◌ as str_append}
use opad.Tap.Float.{Float}
use opad.Model.Counters.{CounterState}
use opad.Daemon.State.{DeviceInfo}
use opad.Service.Store.{save_device_state, touch_device_last_seen}
use opad.Service.Link.{PadCall, Shared, Outside, in_storage, send_counter_sync}
use opad.Service.Sync.{perform_sync}
use opad.Service.Requests.{
  IpcResponse, Handled, in_play, returns_if, first_return, unless, refuse_if_pad_guarded, error,
  operation_rejected, sync_completed, counters_reset, counters_restored, next_generation,
  generation_of, target_counters, loaded,
}
use opad.Prelude.{
  max, Bool, true, not, Option, none, some, List, [], ◌∷◌, String, is_some, Result, ok, err,
  if◌then◌else◌,
}

abbrev pub id_of : Option DeviceInfo → Option String
id_of none = none
id_of (some info) = some info.device_id

module _ (fl : Float) where
  abbrev pub sync_response : Shared fl × List PadCall × Result String CounterState → Handled fl
  sync_response (sh, calls, ok c) = (sh, calls, sync_completed c)
  sync_response (sh, calls, err e) = (sh, calls, error (str_append "Sync failed: " e))

  unfoldable pub force_sync : Outside fl → Shared fl → Handled fl
  unfolding refuse_if_pad_guarded perform_sync
  force_sync out sh =
      unless fl
        (first_return (
          refuse_if_pad_guarded fl sh.state
          ∷ returns_if (in_play sh.state.mode)
              (operation_rejected "Cannot force synchronization during gameplay or cooldown")
          ∷ returns_if (not (is_some sh.storage)) (operation_rejected "Database unavailable")
          ∷ []))
        sh (sync_response (perform_sync fl out sh))

  abbrev pub with_counters : Shared fl → CounterState → Shared fl
  with_counters sh c = record sh { state = record (sh.state) { counters = c } }

  abbrev pub save_known : Outside fl → Option DeviceInfo → CounterState → Shared fl → Shared fl
  save_known out none c sh = sh
  save_known out (some info) c sh = in_storage fl (λ s. save_device_state out.now s info c) sh

  -- The reset itself: sent to a connected pad, or queued for it.
  unfoldable pub reset_now : Outside fl → Shared fl → Handled fl
  reset_now out sh =
      let c : CounterState = record (sh.state.counters) {
        counter_generation = next_generation sh.state.counters.counter_generation;
        lifetime_key1 = 0;
        lifetime_key2 = 0;
      } in
      let saved = save_known out sh.state.device_info c (with_counters sh c) in
      let queued : Shared fl = record saved {
        pending_ops = record (saved.pending_ops) {
          pending_device_push = some (record { device_id = id_of sh.state.device_info });
        };
      } in
      if sh.state.device_connected
      then (out.meanwhile 0 saved, send_counter_sync c true ∷ [], counters_reset c)
      else (queued, [], counters_reset c)

  unfoldable pub reset_counters : Outside fl → Shared fl → Bool → Handled fl
  unfolding refuse_if_pad_guarded reset_now
  reset_counters out sh confirm =
      unless fl
        (first_return (
          refuse_if_pad_guarded fl sh.state
          ∷ returns_if (not confirm)
              (operation_rejected "ResetCounters requires explicit confirmation")
          ∷ returns_if (in_play sh.state.mode)
              (operation_rejected "Cannot reset counters during gameplay or cooldown")
          ∷ returns_if (not (is_some sh.storage)) (operation_rejected "Database unavailable")
          ∷ []))
        sh (reset_now out sh)

  -- Counters forced onto the pad and taken as everyone's.
  unfoldable pub force_counters : Outside fl → Shared fl → DeviceInfo → CounterState → Handled fl
  force_counters out sh info c =
      let saved =
        in_storage fl (λ s. touch_device_last_seen out.now s info.device_id)
          (in_storage fl (λ s. save_device_state out.now s info c) sh) in
      let sent = out.meanwhile 0 saved in
      (
        record sent {
          state = record (sent.state) { counters = c; pc_counters = some c; esp_counters = some c };
        },
        send_counter_sync c true ∷ [],
        counters_restored c,
      )

  -- What `RestoreDeviceFromPc` and `ImportPcFromDevice` refuse.
  abbrev pub may_force : Shared fl → Bool → Option IpcResponse
  may_force sh confirm = first_return (
      refuse_if_pad_guarded fl sh.state
      ∷ returns_if (in_play sh.state.mode)
          (operation_rejected "Not during active gameplay or cooldown")
      ∷ returns_if (not confirm) (operation_rejected "Confirmation required")
      ∷ returns_if (not (is_some sh.storage)) (operation_rejected "Database unavailable")
      ∷ returns_if (not (is_some sh.state.device_info))
          (operation_rejected "No device currently connected")
      ∷ returns_if (not sh.state.device_connected) (operation_rejected "Device is disconnected")
      ∷ [])

  abbrev pub restore_stored : Outside fl → Shared fl → DeviceInfo → Option CounterState → Handled fl
  restore_stored out sh info none =
      (sh, [], operation_rejected "No PC counter state found in database for this device")
  restore_stored out sh info (some pc) = force_counters out sh info (
      target_counters info.device_id
        (next_generation (max pc.counter_generation sh.state.counters.counter_generation))
        pc.lifetime_key1 pc.lifetime_key2)

  abbrev pub restore_known : Outside fl → Shared fl → Option DeviceInfo → Handled fl
  restore_known out sh none = (sh, [], operation_rejected "No device currently connected")
  restore_known out sh (some info) =
      restore_stored out sh info (loaded fl sh.storage info.device_id)

  unfoldable pub restore_device_from_pc : Outside fl → Shared fl → Bool → Handled fl
  unfolding refuse_if_pad_guarded loaded force_counters
  restore_device_from_pc out sh confirm =
      unless fl (may_force sh confirm) sh (restore_known out sh sh.state.device_info)

  abbrev pub import_known : Outside fl → Shared fl → Option DeviceInfo → Handled fl
  import_known out sh none = (sh, [], operation_rejected "No device currently connected")
  import_known out sh (some info) =
      let own = sh.state.counters in
      force_counters out sh info (
        target_counters info.device_id
          (next_generation
            (max (generation_of (loaded fl sh.storage info.device_id)) own.counter_generation))
          own.lifetime_key1 own.lifetime_key2)

  unfoldable pub import_pc_from_device : Outside fl → Shared fl → Bool → Handled fl
  unfolding refuse_if_pad_guarded loaded force_counters
  import_pc_from_device out sh confirm =
      unless fl (may_force sh confirm) sh (import_known out sh sh.state.device_info)
