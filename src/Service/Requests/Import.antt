-- ===== src/Service/Requests/Import.antt =====
-- `ImportBackup` (desktop/daemon/src/ipc_handlers.rs).
use opad.Tap.Float.{Float}
use opad.Model.Backup.{JsonBackup, validate_backup, read_config}
use opad.Model.Config.{DeviceConfig}
use opad.Model.Counters.{CounterState}
use opad.Daemon.State.{DeviceInfo}
use opad.Service.Store.{Storage, Row, save_config, save_device_state}
use opad.Service.Link.{Shared, Outside, in_storage, send_config, send_counter_sync}
use opad.Service.Requests.{
  Handled, in_play, returns_if, first_return, unless, refuse_if_pad_guarded, error,
  operation_rejected, backup_imported, next_generation, target_counters,
}
use opad.Service.Requests.Settings.{refused}
use opad.Prelude.{
  max, Bool, true, false, not, Option, none, some, List, [], ◌∷◌, String, str_eq, is_some,
  unwrap_or, if◌then◌else◌,
}

-- The firmware version in the row of a device, if `list_device_states` answers.
abbrev pub row_version : List Row → String → Option String
row_version [] id = none
row_version (r ∷ rs) id =
    let rest = row_version rs id in if str_eq r.device_id id then some r.firmware_version else rest

abbrev pub stored_version : Option Storage → String → String
stored_version none id = ""
stored_version (some s) id = if s.healthy then unwrap_or (row_version s.device_state id) "" else ""

abbrev pub last_firmware_version : Option DeviceInfo → Option Storage → String → String
last_firmware_version none storage id = stored_version storage id
last_firmware_version (some info) storage id = info.firmware_version

abbrev pub backup_info : JsonBackup → String → DeviceInfo
backup_info b firmware_version = record {
  device_id = b.device_id;
  board_profile = b.board_profile;
  firmware_version = firmware_version;
  protocol_version = 1;
  running_partition = none;
  he_input = false;
  he_calibration = false;
}

module _ (fl : Float) where
  unfoldable pub import_now :
      Outside fl → Shared fl → JsonBackup → DeviceConfig → CounterState → Handled fl
  import_now out sh b cfg c =
      let configured = in_storage fl (λ s. save_config s cfg) sh in
      let version = last_firmware_version sh.state.device_info configured.storage b.device_id in
      let saved =
        in_storage fl (λ s. save_device_state out.now s (backup_info b version) c) configured in
      let applied : Shared fl = record saved {
        state = record (saved.state) { config = cfg; counters = c };
      } in
      (
        out.meanwhile 1 (out.meanwhile 0 applied),
        send_config cfg ∷ send_counter_sync c true ∷ [],
        backup_imported c cfg,
      )

  unfoldable pub import_backup : Outside fl → Shared fl → JsonBackup → Bool → Handled fl
  unfolding refuse_if_pad_guarded validate_backup read_config import_now
  import_backup out sh b confirm =
      let c =
        target_counters b.device_id
          (next_generation (max sh.state.counters.counter_generation b.counter_generation))
          b.lifetime_key1 b.lifetime_key2 in
      unless fl
        (first_return (
          refuse_if_pad_guarded fl sh.state
          ∷ returns_if (not confirm)
              (operation_rejected "ImportBackup requires explicit confirmation")
          ∷ returns_if (in_play sh.state.mode)
              (operation_rejected "Cannot import backup during gameplay or cooldown")
          ∷ returns_if (not (is_some sh.storage)) (operation_rejected "Database unavailable")
          ∷ returns_if (refused (validate_backup out.to_uppercase out.now_ms b))
              (error "Invalid backup")
          ∷ []))
        sh (import_now out sh b (read_config out.to_uppercase b sh.state.config.tosu_endpoint) c)
