-- ===== src/Service/Sync/Failure.antt =====
-- A sync that fails (desktop/daemon/src/sync.rs, `perform_sync`).
use opad.Tap.Float.{Float}
use opad.Model.Counters.{CounterState}
use opad.Daemon.State.{GuardReason, DeviceInfo, PendingCounterReset, pad_guard}
use opad.Service.Store.{save_device_state}
use opad.Service.Link.{PadCall, Shared, Outside, in_storage}
use opad.Service.Sync.{
  Attempts, attempts, wait_idle, sync_with, perform_sync, conclude, reset_for, with_guards, if_idle,
  starting, begun,
}
use opad.Service.Sync.Agreed.{Keeps, Keeps-trans, Keeps-same, attempts-Keeps}
use opad.Prelude.{
  ℕ, ◌≡◌, refl, ap, Bool, true, false, Option, none, some, List, String, is_some, Result, ok, err,
  arith,
}

-- Nothing that a failed sync may not touch has changed: the counters, the configuration, the time of
-- the last sync and the queue.
pub record IsUntouched (fl : Float) (sh sh' : Shared fl) : Type 0 where
  pub counters : sh'.state.counters ≡ sh.state.counters
  pub pc_counters : sh'.state.pc_counters ≡ sh.state.pc_counters
  pub esp_counters : sh'.state.esp_counters ≡ sh.state.esp_counters
  pub config : sh'.state.config ≡ sh.state.config
  pub last_sync_time : sh'.state.last_sync_time ≡ sh.state.last_sync_time
  pub pending_ops : sh'.pending_ops ≡ sh.pending_ops

untouched :
    {fl : Float} (sh : Shared fl) {e : Option String}
    → IsUntouched fl sh (record sh { state = record (sh.state) { last_sync_error = e } })
untouched sh = record {
  counters = refl;
  pc_counters = refl;
  esp_counters = refl;
  config = refl;
  last_sync_time = refl;
  pending_ops = refl;
}

module _ {fl : Float} (out : Outside fl) (info : DeviceInfo) where
  conclude-IsUntouched :
      (reset : Option PendingCounterReset) (asked : List PadCall) (done : Attempts fl)
      (sh : Shared fl) (e : String) (r : Result String Unit)
      → Keeps fl sh done.shared
      → (conclude fl out info reset asked done r).2 ≡ err e
      → IsUntouched fl sh (conclude fl out info reset asked done r).0
  unfolding conclude
  conclude-IsUntouched reset asked done sh e (ok u) k h = ground arith
  conclude-IsUntouched reset asked done sh e (err m) k h = record {
    counters = ap (λ st. st.counters) k.state;
    pc_counters = ap (λ st. st.pc_counters) k.state;
    esp_counters = ap (λ st. st.esp_counters) k.state;
    config = ap (λ st. st.config) k.state;
    last_sync_time = ap (λ st. st.last_sync_time) k.state;
    pending_ops = k.pending_ops;
  }

  if_idle-IsUntouched :
      (b : Bool) (asked : List PadCall) (sh sh1 : Shared fl)
      (r : Shared fl × List PadCall × Result String CounterState) (e : String)
      → sh1 ≡ sh
      → (r.2 ≡ err e → IsUntouched fl sh r.0)
      → (if_idle fl b sh1 asked r).2 ≡ err e
      → IsUntouched fl sh (if_idle fl b sh1 asked r).0
  unfolding if_idle
  if_idle-IsUntouched true asked sh sh1 r e same k h = k h
  if_idle-IsUntouched false asked sh sh1 r e same k h = record {
    counters = ap (λ s. s.state.counters) same;
    pc_counters = ap (λ s. s.state.pc_counters) same;
    esp_counters = ap (λ s. s.state.esp_counters) same;
    config = ap (λ s. s.state.config) same;
    last_sync_time = ap (λ s. s.state.last_sync_time) same;
    pending_ops = ap (λ s. s.pending_ops) same;
  }

  sync_with-IsUntouched :
      (in_memory : CounterState) (sh : Shared fl) (e : String)
      → ((n : ℕ) (s : Shared fl) → out.meanwhile n s ≡ s)
      → (sync_with fl out info in_memory sh).2 ≡ err e
      → IsUntouched fl sh (sync_with fl out info in_memory sh).0
  unfolding sync_with begun
  sync_with-IsUntouched in_memory sh e quiet h =
      let sh1 = out.meanwhile 0 sh in
      let first = starting fl sh1 info in_memory in
      let reset = reset_for sh1.pending_ops info.device_id in
      let saved = in_storage fl (λ s. save_device_state out.now s info first) sh1 in
      let done = attempts fl out info (is_some reset) 3 1 out.replies "" first saved in
      let polled = wait_idle out.polls in
      let kept : Keeps fl sh done.shared =
        Keeps-trans sh saved done.shared
          (Keeps-trans sh sh1 saved (Keeps-same sh sh1 (quiet 0 sh))
            (record { state = refl; pending_ops = refl }))
          (attempts-Keeps fl out info (is_some reset) quiet 3 1 out.replies "" first saved) in
      if_idle-IsUntouched polled.0 polled.1 sh sh1
        (conclude fl out info reset polled.1 done done.result) e (quiet 0 sh)
        (conclude-IsUntouched reset polled.1 done sh e done.result kept) h

with_guards-IsUntouched :
    {fl : Float} (out : Outside fl) (sh : Shared fl) (e : String) (stored : Bool)
    (guard : Option (GuardReason fl)) (info : Option DeviceInfo) (connected : Bool)
    → ((n : ℕ) (s : Shared fl) → out.meanwhile n s ≡ s)
    → (with_guards fl out sh stored guard info connected).2 ≡ err e
    → IsUntouched fl sh (with_guards fl out sh stored guard info connected).0
unfolding with_guards
with_guards-IsUntouched out sh e false guard info connected quiet h = untouched sh
with_guards-IsUntouched out sh e true (some reason) info connected quiet h = untouched sh
with_guards-IsUntouched out sh e true none none connected quiet h = untouched sh
with_guards-IsUntouched out sh e true none (some info) false quiet h = untouched sh
with_guards-IsUntouched out sh e true none (some info) true quiet h =
    sync_with-IsUntouched out info sh.state.counters sh e quiet h

-- Where no other task interferes, a sync that fails, on whatever path, leaves the counters, the
-- configuration, the time of the last sync and the queue of pending operations as they were.
pub perform_sync-IsUntouched :
    {fl : Float} (out : Outside fl) (sh : Shared fl) (e : String)
    → ((n : ℕ) (s : Shared fl) → out.meanwhile n s ≡ s)
    → (perform_sync fl out sh).2 ≡ err e
    → IsUntouched fl sh (perform_sync fl out sh).0
unfolding perform_sync
perform_sync-IsUntouched {fl} out sh e quiet h =
    with_guards-IsUntouched out sh e (is_some sh.storage) (pad_guard fl sh.state)
      sh.state.device_info sh.state.device_connected quiet h
