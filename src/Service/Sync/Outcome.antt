-- ===== src/Service/Sync/Outcome.antt =====
-- What a sync comes to on each path (desktop/daemon/src/sync.rs, `perform_sync`).
use opad.Tap.Float.{Float}
use opad.Model.Counters.{CounterState}
use opad.Model.Counters.{reconcile_counters, counter_reset}
use opad.Model.Counters.Merge.{Covers}
use opad.Daemon.State.{DeviceInfo, PendingCounterReset, pad_guard}
use opad.Service.Store.{save_device_state}
use opad.Service.Link.{PadCall, Shared, Outside, in_storage}
use opad.Service.Sync.{
  Attempts, attempts, is_accepted, wait_idle, sync_with, perform_sync, conclude, reset_for,
  with_guards, if_idle, starting, begun,
}
use opad.Service.Sync.Agreed.{is_ok, Sends, attempts-is_ok}
use opad.Prelude.{
  ◌⊎◌, ◌≡◌, refl, ap, ◌∙◌, Bool, true, false, ◌&&◌, Option, none, some, List, [], ◌∷◌, String, any,
  take, is_some, Result, ok, err,
}

abbrev pub heard_idle : Option Bool → Bool
heard_idle none = false
heard_idle (some idle) = idle

wait-any : (polls : List (Option Bool)) → (wait_idle polls).0 ≡ any heard_idle polls
unfolding wait_idle
wait-any [] = refl
wait-any (none ∷ rest) = wait-any rest
wait-any (some true ∷ rest) = refl
wait-any (some false ∷ rest) = wait-any rest

-- The daemon has a database, and a connected pad that it may talk to.
pub record MayTalk (fl : Float) (sh : Shared fl) (info : DeviceInfo) : Type 0 where
  pub stored : is_some sh.storage ≡ true
  pub unguarded : pad_guard fl sh.state ≡ none
  pub known : sh.state.device_info ≡ some info
  pub connected : sh.state.device_connected ≡ true

module _ {fl : Float} (out : Outside fl) (sh : Shared fl) (info : DeviceInfo) where
  perform-sync_with :
      MayTalk fl sh info → perform_sync fl out sh ≡ sync_with fl out info sh.state.counters sh
  unfolding perform_sync
  perform-sync_with h =
      let p = h.stored in
      let q = h.unguarded in
      let r = h.known in
      let t = h.connected in
      let e : perform_sync fl out sh ≡ with_guards fl out sh true none (some info) true = cc in
      let d : with_guards fl out sh true none (some info) true
          ≡ sync_with fl out info sh.state.counters sh =
        unfold with_guards in refl in
      e ∙ d

module _ {fl : Float} (out : Outside fl) (info : DeviceInfo) (reset : Option PendingCounterReset)
    (asked : List PadCall) (done : Attempts fl) where
  conclude-is_ok :
      (r : Result String Unit) → is_ok (conclude fl out info reset asked done r).2 ≡ is_ok r
  unfolding conclude
  conclude-is_ok (ok u) = refl
  conclude-is_ok (err e) = refl

module _ {fl : Float} (out : Outside fl) (info : DeviceInfo) (reset : Option PendingCounterReset)
    (asked : List PadCall) (done : Attempts fl) where
  if_idle-is_ok :
      (b : Bool) (sh : Shared fl) (r : Result String Unit)
      → is_ok (if_idle fl b sh asked (conclude fl out info reset asked done r)).2 ≡ (b && is_ok r)
  unfolding if_idle
  if_idle-is_ok true sh r = conclude-is_ok out info reset asked done r
  if_idle-is_ok false sh r = refl

-- A sync of a pad that may be talked to succeeds exactly if the pad reports idle in one of the rounds
-- of the wait and accepts the counters in one of three attempts, whatever the other tasks do meanwhile.
pub perform_sync-is_ok :
    {fl : Float} (out : Outside fl) (sh : Shared fl) (info : DeviceInfo)
    → MayTalk fl sh info
    → is_ok (perform_sync fl out sh).2
      ≡ (any heard_idle out.polls && any is_accepted (take 3 out.replies))
unfolding sync_with begun
perform_sync-is_ok {fl} out sh info h =
    let sh1 = out.meanwhile 0 sh in
    let c = starting fl sh1 info sh.state.counters in
    let reset = reset_for sh1.pending_ops info.device_id in
    let saved = in_storage fl (λ s. save_device_state out.now s info c) sh1 in
    let done = attempts fl out info (is_some reset) 3 1 out.replies "" c saved in
    ap (λ r. is_ok r.2) (perform-sync_with out sh info h)
    ∙ (if_idle-is_ok out info reset (wait_idle out.polls).1 done (wait_idle out.polls).0 sh1
          done.result
        ∙ (ap (λ b. b && is_ok done.result) (wait-any out.polls)
            ∙ ap (λ b. any heard_idle out.polls && b)
                (attempts-is_ok fl out info (is_some reset) 3 1 out.replies "" c saved)))

-- The counters are the state's, this PC's and the pad's, the last error is gone, and the value was
-- sent.
pub record IsSynced (fl : Float) (sh : Shared fl) (calls : List PadCall) (c : CounterState)
    : Type 0 where
  pub counters : sh.state.counters ≡ c
  pub pc_counters : sh.state.pc_counters ≡ some c
  pub esp_counters : sh.state.esp_counters ≡ some c
  pub no_error : sh.state.last_sync_error ≡ none
  pub sent : Sends c calls

-- Whose presses the agreed counters keep: with a reset waiting they are the reset's or above it, else
-- they cover what this PC had stored and what the pad had reported.
pub record IsAgreed (reset : Option PendingCounterReset) (id : String)
    (stored in_memory c : CounterState) : Type 0 where
  pub agreed :
      ((is_some reset ≡ true)
        × Covers c (counter_reset id (reconcile_counters stored in_memory) in_memory))
      ⊎ ((reset ≡ none) × Covers c stored × Covers c in_memory)

module _ {fl : Float} (out : Outside fl) (sh : Shared fl) (info : DeviceInfo) where
  -- The shared state after the wait for idle.
  abbrev pub waited : Shared fl
  waited = out.meanwhile 0 sh
