-- ===== src/Model/Counters.antt =====
-- Press counters kept on the pad and on this PC, and their reconciliation
-- (desktop/crates/opad-model/src/lib.rs, desktop/crates/opad-storage/src/lib.rs,
-- desktop/daemon/src/sync.rs, desktop/daemon/src/runtime.rs).
pub mod Merge
use opad.Prelude.{
  ℕ, ◌+◌, ◌-◌, ◌^◌, ◌≤◌, ◌≡◌, max, min, Bool, true, false, not, ◌||◌, Option, none, some, String,
  ltb, if◌then◌else◌, str_eq,
}

pub record CounterState : Type 0 where
  pub device_id : String
  pub counter_generation : ℕ
  pub lifetime_key1 : ℕ
  pub lifetime_key2 : ℕ
  pub map_key1 : ℕ
  pub map_key2 : ℕ

abbrev pub is_empty : String → Bool
is_empty s = str_eq s ""

-- `u64` and `u32` saturating addition
unfoldable pub total_lifetime_presses : CounterState → ℕ
total_lifetime_presses c = min (c.lifetime_key1 + c.lifetime_key2) (2 ^ 64 - 1)

unfoldable pub reconcile_counters : CounterState → CounterState → CounterState
reconcile_counters pc esp =
    if ltb esp.counter_generation pc.counter_generation
    then pc
    else (if ltb pc.counter_generation esp.counter_generation then esp else record {
      device_id = if not (is_empty pc.device_id) then pc.device_id else esp.device_id;
      counter_generation = pc.counter_generation;
      lifetime_key1 = max pc.lifetime_key1 esp.lifetime_key1;
      lifetime_key2 = max pc.lifetime_key2 esp.lifetime_key2;
      map_key1 = esp.map_key1;
      map_key2 = esp.map_key2;
    })

-- Zeroed counters in a generation above the pad's.
unfoldable pub counter_reset : String → CounterState → CounterState → CounterState
counter_reset device_id reconciled device = record {
  device_id = device_id;
  counter_generation =
      max reconciled.counter_generation (min (device.counter_generation + 1) (2 ^ 32 - 1));
  lifetime_key1 = 0;
  lifetime_key2 = 0;
  map_key1 = 0;
  map_key2 = 0;
}

unfoldable pub pc_is_ahead : Option CounterState → CounterState → Bool
pc_is_ahead none pad = false
pc_is_ahead (some pc) pad =
    ltb pad.lifetime_key1 pc.lifetime_key1 || ltb pad.lifetime_key2 pc.lifetime_key2
