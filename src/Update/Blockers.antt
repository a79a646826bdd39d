-- ===== src/Update/Blockers.antt =====
-- When a flash may start (desktop/crates/opad-update/src/firmware.rs `blockers`).
use opad.Update.Firmware.{Preconditions, blockers}
use opad.Prelude.{◌≡◌, ◌↔◌, true, [], ok, arith}

-- Every fact that a flash rests on.
pub record IsReady (p : Preconditions) : Type 0 where
  pub connected : p.connected ≡ true
  pub running_from_ota_0 : p.running_from_ota_0 ≡ true
  pub idle : p.gate ≡ ok tt
  pub storage_available : p.storage_available ≡ true
  pub counters_synced : p.counters_synced ≡ true
  pub consented : p.consented ≡ true

-- A flash has no blocker exactly if a pad is connected and runs from `ota_0`, the gate is open, there is
-- storage, the counters are synced and a person has consented.
pub blockers_iff : (p : Preconditions) → (blockers p ≡ []) ↔ IsReady p
unfolding blockers
blockers_iff p = ground arith
