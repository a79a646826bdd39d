-- ===== src/Service/Requests.antt =====
-- The requests that change what the daemon keeps or reach the pad
-- (desktop/daemon/src/ipc_handlers.rs). A request ends in the shared state, the calls to the pad in
-- their order, and the response.
pub mod Settings
pub mod Presses
pub mod Owner
pub mod Import
pub mod Preferences
pub mod Commands
pub mod Handle
pub mod Quiet
pub mod Gated
pub mod Guarded
pub mod Takeover
mod Tests
use opad.Tap.Float.{Float}
use opad.Layout.{Screen}
use opad.Model.Config.{DeviceConfig}
use opad.Model.Counters.{CounterState}
use opad.Daemon.State.{RuntimeMode, DaemonState, DeviceInfo, GuardReason, pad_guard}
use opad.Service.Store.{Storage, load_device_state}
use opad.Service.Link.{PadCall, Shared}
use opad.Service.Sync.{guard_text}
use opad.Prelude.{
  ℕ, ◌+◌, ◌-◌, ◌^◌, min, max, Bool, true, false, ◌||◌, Option, none, some, List, [], ◌∷◌, String,
  is_some, Result, ok, err,
}

pub data IpcResponse : Type 0 where
  error operation_rejected operation_deferred : String → IpcResponse
  config_updated : DeviceConfig → Bool → IpcResponse
  backup_imported : CounterState → DeviceConfig → IpcResponse
  layout_applied : Screen → String → IpcResponse
  sync_completed counters_reset counters_restored : CounterState → IpcResponse
  -- `TapStats`, with the snapshot that the state then has
  tap_stats : IpcResponse
  handshake_ack : Bool → IpcResponse
  board_test : String → IpcResponse
  pin_detected : (key_id gpio : ℕ) → Bool → IpcResponse
  update_check_started animation_played pad_restarting he_calibration_started
        he_calibration_cancelled easter_egg_triggered :
      IpcResponse

-- `mode == Playing || mode == Cooldown`
abbrev pub in_play : RuntimeMode → Bool
in_play RuntimeMode.playing = true
in_play RuntimeMode.cooldown = true
in_play RuntimeMode.idle = false
in_play RuntimeMode.sync = false

-- `saturating_add(1)` on a `u32`
abbrev pub next_generation : ℕ → ℕ
next_generation n = min (n + 1) (2 ^ 32 - 1)

abbrev pub generation_of : Option CounterState → ℕ
generation_of none = 0
generation_of (some c) = c.counter_generation

abbrev pub target_counters : String → ℕ → ℕ → ℕ → CounterState
target_counters id generation key1 key2 = record {
  device_id = id;
  counter_generation = generation;
  lifetime_key1 = key1;
  lifetime_key2 = key2;
  map_key1 = 0;
  map_key2 = 0;
}

-- `if test { return response; }`
abbrev pub returns_if : Bool → IpcResponse → Option IpcResponse
returns_if true response = some response
returns_if false response = none

-- The first early return that applies.
abbrev pub first_return : List (Option IpcResponse) → Option IpcResponse
first_return [] = none
first_return (some response ∷ rest) = some response
first_return (none ∷ rest) = first_return rest

module _ (fl : Float) where
  abbrev pub Handled : Type 0
  Handled = Shared fl × List PadCall × IpcResponse

  -- An early return leaves everything as it is.
  unfoldable pub unless : Option IpcResponse → Shared fl → Handled → Handled
  unless (some response) sh rest = (sh, [], response)
  unless none sh rest = rest

  abbrev pub refusal : Option (GuardReason fl) → Option IpcResponse
  refusal none = none
  refusal (some reason) = some (error (guard_text fl reason))

  unfoldable pub refuse_if_pad_guarded : DaemonState fl → Option IpcResponse
  unfolding pad_guard
  refuse_if_pad_guarded st = refusal (pad_guard fl st)

  -- `s.load_device_state(id).unwrap_or(None)`, if there is a database
  unfoldable pub loaded : Option Storage → String → Option CounterState
  loaded none id = none
  loaded (some s) id = elim (load_device_state s id) [ ok found ↦ found | err e ↦ none ]
