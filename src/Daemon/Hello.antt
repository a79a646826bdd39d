-- ===== src/Daemon/Hello.antt =====
-- A HelloAck, as the events that it becomes (desktop/crates/opad-device/src/lib.rs): the owner, the
-- counters, whether the pad times its presses, the pad (desktop/daemon/src/runtime.rs).
use opad.Tap.Float.{Float}
use opad.Model.Config.{DeviceConfig}
use opad.Model.Counters.{CounterState}
use opad.Protocol.{device_protocol_version}
use opad.Daemon.State.{DeviceInfo}
use opad.Daemon.Events
use opad.Daemon.Events.{RuntimeEvent}
use opad.Daemon.Controller.{RuntimeController, Env}
use opad.Daemon.Step.{◌&>◌}
use opad.Daemon.Connect.{device_connected, leave_alone}
use opad.Daemon.Device.{device_ownership, device_counters}
use opad.Daemon.Tosu.{hear_press_times}
use opad.Daemon.Dispatch.{on_event}
use opad.Daemon.Writes.Trace.{run}
use opad.Prelude.{ℕ, ◌≡◌, ◌≢◌, false, some, Bool, Option, List, [], ◌∷◌, arith}

abbrev pub hello :
    {fl : Float}
    → Env
    → List ℕ
    → CounterState
    → Bool
    → DeviceInfo
    → Option DeviceConfig
    → ℕ
    → List (Env × RuntimeEvent fl × ℕ)
hello env owner_id report press_times info dev_cfg now =
    (env, Events.device_ownership owner_id, now)
    ∷ (env, Events.device_counters report, now)
    ∷ (env, Events.pad_press_times press_times, now)
    ∷ (env, Events.device_connected info dev_cfg, now)
    ∷ []

module _ (fl : Float) where
  -- After the HelloAck of a pad that speaks another protocol, whatever owner, counters and
  -- configuration it reports, nothing was asked for, the counters, the configuration and the known
  -- pads are those from before, and no pad is connected: the pad is noted as incompatible.
  pub run-hello :
      (env : Env) (m : RuntimeController fl) (owner_id : List ℕ) (report : CounterState)
      (press_times : Bool) (info : DeviceInfo) (dev_cfg : Option DeviceConfig) (now : ℕ)
      → info.protocol_version ≢ device_protocol_version
      → ((run fl m (hello env owner_id report press_times info dev_cfg now)).1 ≡ [])
        × ((run fl m (hello env owner_id report press_times info dev_cfg now)).0.state.counters
            ≡ m.state.counters)
        × ((run fl m (hello env owner_id report press_times info dev_cfg now)).0.state.config
            ≡ m.state.config)
        × ((run fl m (hello env owner_id report press_times info dev_cfg now)).0.known_devices
            ≡ m.known_devices)
        × ((run fl m
              (hello env owner_id report press_times info dev_cfg now)).0.state.device_connected
            ≡ false)
        × ((run fl m (hello env owner_id report press_times info dev_cfg now)).0.state.incompatible
            ≡ some (record {
              firmware_version = info.firmware_version;
              protocol_version = info.protocol_version;
            }))
  unfolding run on_event device_connected leave_alone device_ownership device_counters
      hear_press_times ◌&>◌
  run-hello env m owner_id report press_times info dev_cfg now other = ground arith
