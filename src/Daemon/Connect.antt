-- ===== src/Daemon/Connect.antt =====
-- A pad that connects (desktop/daemon/src/runtime.rs, `on_event` on `DeviceConnected`).
use opad.Tap.Float.{Float}
use opad.Layout.{Screen, Layout}
use opad.Protocol.{device_protocol_version}
use opad.Model.Config.{DeviceConfig, default_config}
use opad.Model.Counters.{CounterState, pc_is_ahead}
use opad.Daemon.Telemetry.{reset_sent}
use opad.Daemon.State.{DeviceInfo, PendingTakeover, is_idle, is_playing, may_touch_pad, device, pc}
use opad.Daemon.Events.{
  RuntimeAction, take_over_if_pad_is_ahead, send_time_sync, trigger_sync, claim_ownership,
  request_device_status, send_config, save_device_config, send_host_status, send_layout,
  save_initial_device_state, touch_device_last_seen,
}
use opad.Daemon.Controller.{
  RuntimeController, Env, Ownership, no_identity, unclaimed, ours, someone, ownership_of, is_known,
  insert_known, is_nil,
}
use opad.Daemon.Step.{Step, ◌&>◌, ask, quiet}
use opad.Daemon.Attempts.{emit}
use opad.Prelude.Text.{is_blank}
use opad.Prelude.{
  ℕ, Bool, true, false, not, ◌&&◌, ◌||◌, Option, none, some, List, [], ◌∷◌, ◌++◌, String, ltb, leb,
  ◌==◌, str_eq, if◌then◌else◌, is_some, unwrap_or,
}

module _ (fl : Float) where
  abbrev restored : Option CounterState → CounterState → CounterState
  restored none counters = counters
  restored (some before) counters = before

  -- A pad of another protocol is left alone.
  unfoldable pub leave_alone : RuntimeController fl → DeviceInfo → RuntimeController fl
  leave_alone m info = record m {
    state = record (m.state) {
      incompatible = some (record {
        firmware_version = info.firmware_version;
        protocol_version = info.protocol_version;
      });
      device_connected = false;
      counters_source = pc;
      esp_counters = none;
      counters = restored m.pre_hello_counters m.state.counters;
    };
    pre_hello_counters = none;
    reported_owner = none;
  }

  abbrev has_presses_for : String → Option CounterState → Bool
  has_presses_for id none = false
  has_presses_for id (some stored) =
      str_eq stored.device_id id && (ltb 0 stored.lifetime_key1 || ltb 0 stored.lifetime_key2)

  -- A pad that we have counters for, with a factory-fresh NVS.
  unfoldable pub is_nvs_wiped : RuntimeController fl → DeviceInfo → Bool
  is_nvs_wiped m info =
      is_known info.device_id m.known_devices
      && (leb m.state.counters.counter_generation 1
          && (m.state.counters.lifetime_key1 == 0
              && (m.state.counters.lifetime_key2 == 0
                  && has_presses_for info.device_id m.state.pc_counters)))

  -- The pad's configuration with what stays this PC's.
  unfoldable pub adopted_config : DeviceConfig → DeviceConfig → DeviceConfig
  adopted_config own cfg = record cfg {
    tosu_endpoint =
        if is_blank cfg.tosu_endpoint
        then (if is_blank own.tosu_endpoint
            then default_config.tosu_endpoint
            else own.tosu_endpoint)
        else cfg.tosu_endpoint;
    result_animations = own.result_animations;
  }

  unfoldable pub adopt_config : RuntimeController fl → Bool → Option DeviceConfig → Step fl
  adopt_config m wiped none = quiet m
  adopt_config m true (some cfg) = quiet m
  adopt_config m false (some cfg) =
      let adopted = adopted_config m.state.config cfg in
      ask (record m { state = record (m.state) { config = adopted } })
        (save_device_config adopted ∷ [])

  -- The pad as the state shows it, before its owner is judged.
  unfoldable pub greet : RuntimeController fl → DeviceInfo → Option DeviceConfig → Step fl
  unfolding is_nvs_wiped adopt_config
  greet m info dev_cfg =
      let wiped = is_nvs_wiped m info in
      let m' : RuntimeController fl = record m {
        state = record (m.state) {
          incompatible = none;
          device_connected = true;
          counters_source = device;
          nvs_restore_pending = wiped;
        };
        pre_hello_counters = none;
      } in
      adopt_config m' wiped dev_cfg &> λ n. quiet (record n {
        state = record (n.state) { device_info = some info; esp_counters = some n.state.counters };
      })

  abbrev with_owner : RuntimeController fl → Option PendingTakeover → Bool → RuntimeController fl
  with_owner m takeover foreign = record m {
    state = record (m.state) { pending_takeover = takeover; foreign_pad = foreign };
    reported_owner = none;
  }

  unfoldable pub judge : RuntimeController fl → DeviceInfo → Ownership → Step fl
  judge m info no_identity = quiet (with_owner m none false)
  judge m info ours = quiet (with_owner m none false)
  judge m info unclaimed = ask (with_owner m none false) (claim_ownership ∷ [])
  judge m info someone =
      ask
        (with_owner m
          (some (record {
            device_id = info.device_id;
            device_key1 = m.state.counters.lifetime_key1;
            device_key2 = m.state.counters.lifetime_key2;
          }))
          true)
        (take_over_if_pad_is_ahead ∷ [])

  abbrev defer_last_seen : RuntimeController fl → String → RuntimeController fl
  defer_last_seen m id = record m {
    pending_ops = record (m.pending_ops) { pending_last_seen = some id };
  }

  -- A new pad: saved now, or noted as seen when the daemon is not idle.
  unfoldable pub enroll : RuntimeController fl → DeviceInfo → Step fl
  enroll m info =
      let m' : RuntimeController fl = record m {
        known_devices = insert_known info.device_id m.known_devices;
      } in
      if is_idle m.state.mode
      then ask m' (
          save_initial_device_state info m.state.counters
          ∷ touch_device_last_seen info.device_id
          ∷ [])
      else quiet (defer_last_seen m' info.device_id)

  -- A blank pad with fewer presses than this PC holds.
  unfoldable pub may_be_replacement : RuntimeController fl → Bool
  may_be_replacement m =
      leb m.state.counters.counter_generation 1
      && (ltb m.state.counters.lifetime_key1 1000
          && (ltb m.state.counters.lifetime_key2 1000
              && pc_is_ahead m.state.pc_counters m.state.counters))

  unfoldable pub register : Env → RuntimeController fl → DeviceInfo → Step fl
  register env m info =
      if is_known info.device_id m.known_devices
      then (if is_idle m.state.mode
          then ask m (touch_device_last_seen info.device_id ∷ [])
          else quiet (defer_last_seen m info.device_id))
      else (if is_nil fl m.known_devices && not m.has_initial_db_entry
          then enroll (record m { has_initial_db_entry = true }) info
          else (if may_be_replacement m
              then quiet (record m {
                state = record (m.state) {
                  pending_replacement = some (unwrap_or (env.pick m.known_devices) "previous");
                };
              })
              else enroll m info))

  unfoldable pub layouts_of : List (Screen × Layout) → List (RuntimeAction fl)
  layouts_of [] = []
  layouts_of ((screen, layout) ∷ rest) = send_layout screen layout ∷ layouts_of rest

  -- The first messages to the pad.
  unfoldable pub announce : RuntimeController fl → Bool → List (RuntimeAction fl)
  announce m without_config =
      send_time_sync
      ∷ request_device_status
      ∷ (emit (without_config && not m.state.foreign_pad) (send_config m.state.config)
          ++ (send_host_status m.state.tosu_connected (is_playing m.state.mode) m.play_id
                m.state.osu_active
              ∷ ((if m.state.foreign_pad then [] else layouts_of m.state.custom_layouts)
                  ++ emit
                      (not (is_some m.state.storage_error)
                        && (may_touch_pad fl m.state && is_idle m.state.mode))
                      trigger_sync)))

  unfoldable pub settle : RuntimeController fl → ℕ → RuntimeController fl
  settle m now = record m {
    data_sync = reset_sent fl m.data_sync;
    last_periodic_sync = now;
    last_periodic_time_sync = now;
    last_synced_counters = some m.state.counters;
  }

  -- A pad that speaks our protocol.
  unfoldable pub welcome :
      Env → RuntimeController fl → DeviceInfo → Option DeviceConfig → ℕ → Step fl
  welcome env m info dev_cfg now =
      greet m info dev_cfg
      &> (λ n. judge n info (ownership_of env n.state.install_id (unwrap_or n.reported_owner [])))
      &> (λ n. register env n info)
      &> λ n. ask (settle n now) (announce n (not (is_some dev_cfg) || n.state.nvs_restore_pending))

  unfoldable pub device_connected :
      Env → RuntimeController fl → DeviceInfo → Option DeviceConfig → ℕ → Step fl
  device_connected env m info dev_cfg now =
      if info.protocol_version == device_protocol_version
      then welcome env m info dev_cfg now
      else quiet (leave_alone m info)
