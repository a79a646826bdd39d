-- ===== src/Model/Counters/Merge.antt =====
-- What reconciliation keeps.
use opad.Prelude.{◌⊎◌, ◌↔◌, ◌≤◌, ◌<◌, ◌≡◌, false, some, arith, str_eq_iff}
use opad.Model.Counters.{CounterState, reconcile_counters, pc_is_ahead}

-- `a` is outranked by `b`: an older generation, or no more presses of either key in the same one.
pub record Covers (b a : CounterState) : Type 0 where
  pub covers :
      (a.counter_generation < b.counter_generation)
      ⊎ ((a.counter_generation ≡ b.counter_generation)
          × (a.lifetime_key1 ≤ b.lifetime_key1)
          × (a.lifetime_key2 ≤ b.lifetime_key2))

-- The reconciled counters cover both sides, so that no press of the newest generation is lost, and
-- counters that cover both sides cover them: they are the least such.
pub reconcile_counters-Covers :
    (pc esp other : CounterState)
    → Covers other pc
    → Covers other esp
    → Covers (reconcile_counters pc esp) pc
      × Covers (reconcile_counters pc esp) esp
      × Covers other (reconcile_counters pc esp)
unfolding reconcile_counters
reconcile_counters-Covers pc esp other over_pc over_esp = ground arith

-- A second reconciliation with the same counters of the pad changes nothing.
pub reconcile_counters_again :
    (pc esp : CounterState)
    → (reconcile_counters (reconcile_counters pc esp) esp ≡ reconcile_counters pc esp)
unfolding reconcile_counters
reconcile_counters_again pc esp =
    ground (arith, str_eq_iff pc.device_id "", str_eq_iff esp.device_id "")

-- This PC is not ahead exactly where the pad's counters are at least this PC's on both keys, so that
-- siding with the pad loses no press.
pub pc_is_ahead_iff :
    (pc pad : CounterState)
    → (pc_is_ahead (some pc) pad ≡ false)
      ↔ ((pc.lifetime_key1 ≤ pad.lifetime_key1) × (pc.lifetime_key2 ≤ pad.lifetime_key2))
unfolding pc_is_ahead
pc_is_ahead_iff pc pad = ground arith
