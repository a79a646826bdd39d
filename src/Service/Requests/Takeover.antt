-- ===== src/Service/Requests/Takeover.antt =====
-- What a takeover ends in (desktop/daemon/src/ipc_handlers.rs, `ResolveTakeover`).
use mathlib.Core.Path.{subst}
use opad.Tap.Float.{Float}
use opad.Model.Counters.{pc_is_ahead, CounterState}
use opad.Model.Counters.Merge.{pc_is_ahead_iff}
use opad.Daemon.State.{DeviceInfo, PendingTakeover}
use opad.Service.Link.{Shared, Outside}
use opad.Service.Requests.{
  operation_rejected, operation_deferred, unless, returns_if, in_play, Handled, counters_restored,
  loaded,
}
use opad.Service.Requests.Owner.{
  judge_takeover, record_for, judge_takeover, claim, presses_of, owner_bytes, resolve_takeover,
  take_over_if_pad_is_ahead, with_takeover, pad_side, decide, claimed, takeover_target,
}
use opad.Prelude.{
  sym, ap, ◌∙◌, refl, ◌≤◌, [], if◌then◌else◌, ℕ, ◌<◌, ◌-◌, ◌^◌, ◌≡◌, ◌⊎◌, inl, inr, Bool, true,
  false, Option, none, some, List, String, is_some, Result, ok, err, arith,
}

-- The pad is this install's with the counters `c`, which keep the pad's presses where asked to.
pub record IsTaken (fl : Float) (out : Outside fl) (before : CounterState) (keep : Bool)
    (h : Handled fl) (c : CounterState) : Type 0 where
  pub claim_held : out.claims ≡ ok tt
  pub owned : h.0.state.foreign_pad ≡ false
  pub counters : h.0.state.counters ≡ c
  pub presses :
      (keep ≡ false)
      ⊎ ((c.lifetime_key1 ≡ before.lifetime_key1) × (c.lifetime_key2 ≡ before.lifetime_key2))
  pub generation :
      (before.counter_generation < c.counter_generation) ⊎ (c.counter_generation ≡ 2 ^ 32 - 1)

restored_inj : (a b : CounterState) → counters_restored a ≡ counters_restored b → a ≡ b
restored_inj a b h = cc

module _ (fl : Float) (info : DeviceInfo) (own : CounterState) (pc : Option CounterState) where
  target_presses :
      (keep : Bool)
      → (keep ≡ false)
        ⊎ (((takeover_target fl info own pc keep).lifetime_key1 ≡ own.lifetime_key1)
            × ((takeover_target fl info own pc keep).lifetime_key2 ≡ own.lifetime_key2))
  unfolding takeover_target
  target_presses false = inl refl
  target_presses true = inr (refl, refl)

  target_generation :
      (keep : Bool)
      → (own.counter_generation < (takeover_target fl info own pc keep).counter_generation)
        ⊎ ((takeover_target fl info own pc keep).counter_generation ≡ 2 ^ 32 - 1)
  unfolding takeover_target
  target_generation keep = ground arith

some_inj : {A : Type 0} (a b : A) → ◌≡◌ {A = Option A} (some a) (some b) → a ≡ b
some_inj a b h = cc

module _ (fl : Float) (out : Outside fl) where
  claimed-IsTaken :
      (sh : Shared fl) (info : DeviceInfo) (pending : PendingTakeover) (owner : List ℕ)
      (own : CounterState) (pc : Option CounterState) (keep : Bool) (c : CounterState)
      (r : Result String Unit)
      → out.claims ≡ r
      → (claimed fl out sh info pending (takeover_target fl info own pc keep) owner r).2
        ≡ counters_restored c
      → IsTaken fl out own keep
          (claimed fl out sh info pending (takeover_target fl info own pc keep) owner r)
          c
  unfolding claimed
  claimed-IsTaken sh info pending owner own pc keep c (err e) held h = ground arith
  claimed-IsTaken sh info pending owner own pc keep c (ok u) held h =
      let target = takeover_target fl info own pc keep in
      subst (IsTaken fl out own keep (claimed fl out sh info pending target owner (ok u)))
        (restored_inj target c h)
        (record {
          claim_held = held;
          owned = refl;
          counters = refl;
          presses = target_presses fl info own pc keep;
          generation = target_generation fl info own pc keep;
        })

  claim-IsTaken :
      (sh : Shared fl) (info : DeviceInfo) (pending : PendingTakeover) (own : CounterState)
      (pc : Option CounterState) (keep : Bool) (c : CounterState) (owner : Option (List ℕ))
      → (claim fl out sh info pending (takeover_target fl info own pc keep) owner).2
        ≡ counters_restored c
      → IsTaken fl out own keep
          (claim fl out sh info pending (takeover_target fl info own pc keep) owner)
          c
  claim-IsTaken sh info pending own pc keep c none h = ground arith
  claim-IsTaken sh info pending own pc keep c (some owner) h =
      claimed-IsTaken sh info pending owner own pc keep c out.claims refl h

  if-IsTaken :
      (own : CounterState) (keep : Bool) (c : CounterState) (b : Bool) (taken : Handled fl)
      (sh : Shared fl) (reason : String)
      → (taken.2 ≡ counters_restored c → IsTaken fl out own keep taken c)
      → (if b then taken else (sh, [], operation_rejected reason)).2 ≡ counters_restored c
      → IsTaken fl out own keep (if b then taken else (sh, [], operation_rejected reason)) c
  if-IsTaken own keep c true taken sh reason k h = k h
  if-IsTaken own keep c false taken sh reason k h = ground arith

  decide-IsTaken :
      (sh : Shared fl) (pending : Option PendingTakeover) (info : Option DeviceInfo)
      (take_over keep : Bool) (c : CounterState)
      → (decide fl out sh pending info take_over keep).2 ≡ counters_restored c
      → IsTaken fl out sh.state.counters keep (decide fl out sh pending info take_over keep) c
  decide-IsTaken sh none info take_over keep c h = ground arith
  decide-IsTaken sh (some pending) none take_over keep c h = ground arith
  decide-IsTaken sh (some pending) (some info) false keep c h = ground arith
  decide-IsTaken sh (some pending) (some info) true keep c h =
      if-IsTaken sh.state.counters keep c (is_some sh.storage) _
        (with_takeover fl sh (some pending)) "Database unavailable"
        (claim-IsTaken sh info pending sh.state.counters (loaded fl sh.storage info.device_id) keep
          c (owner_bytes out.parse_uuid sh.state.install_id))
        h

  unless-IsTaken :
      (own : CounterState) (keep : Bool) (c : CounterState) (b : Bool) (reason : String)
      (sh : Shared fl) (rest : Handled fl)
      → (rest.2 ≡ counters_restored c → IsTaken fl out own keep rest c)
      → (unless fl (returns_if b (operation_deferred reason)) sh rest).2 ≡ counters_restored c
      → IsTaken fl out own keep (unless fl (returns_if b (operation_deferred reason)) sh rest) c
  unfolding unless
  unless-IsTaken own keep c true reason sh rest k h = ground arith
  unless-IsTaken own keep c false reason sh rest k h = k h

  -- A takeover that is reported as done has recorded this install as the pad's owner, leaves no foreign
  -- pad, and the counters in a generation above the pad's, or the last one of a `u32`; where the pad's
  -- presses were to be kept they are kept.
  pub resolve_takeover-IsTaken :
      (sh : Shared fl) (take_over keep : Bool) (c : CounterState)
      → (resolve_takeover fl out sh take_over keep).2 ≡ counters_restored c
      → IsTaken fl out sh.state.counters keep (resolve_takeover fl out sh take_over keep) c
  unfolding resolve_takeover
  resolve_takeover-IsTaken sh take_over keep c h =
      unless-IsTaken sh.state.counters keep c (in_play sh.state.mode)
        "Cannot resolve pad ownership during gameplay or cooldown" sh
        (decide fl out (with_takeover fl sh none) sh.state.pending_takeover sh.state.device_info
          take_over keep)
        (decide-IsTaken (with_takeover fl sh none) sh.state.pending_takeover sh.state.device_info
          take_over keep c)
        h

  if_some :
      (b : Bool) (x h : Handled fl) → (if b then none else some x) ≡ some h → (b ≡ false) × (x ≡ h)
  if_some true x h e = ground arith
  if_some false x h e = (refl, some_inj x h e)

  ahead_le :
      (pc : Option CounterState) (pad : CounterState)
      → pc_is_ahead pc pad ≡ false
      → ((presses_of pc).0 ≤ pad.lifetime_key1) × ((presses_of pc).1 ≤ pad.lifetime_key2)
  ahead_le none pad h = (omega arith, omega arith)
  ahead_le (some pc) pad h = (pc_is_ahead_iff pc pad).0 h

  kept_presses :
      (own c : CounterState) (h : Handled fl)
      → IsTaken fl out own true h c
      → (c.lifetime_key1 ≡ own.lifetime_key1) × (c.lifetime_key2 ≡ own.lifetime_key2)
  kept_presses own c h taken = let p = taken.presses in ground arith

  -- A takeover without asking loses no press: the counters that it ends in have at least the presses
  -- that this PC holds for the pad, provided the pad's counters have not gone down since the prompt.
  pub take_over_if_pad_is_ahead-presses :
      (sh : Shared fl) (p : PendingTakeover) (h : Handled fl) (c : CounterState)
      → sh.state.pending_takeover ≡ some p
      → (p.device_key1 ≤ sh.state.counters.lifetime_key1)
        × (p.device_key2 ≤ sh.state.counters.lifetime_key2)
      → take_over_if_pad_is_ahead fl out sh ≡ some h
      → h.2 ≡ counters_restored c
      → ((presses_of (record_for fl sh (some p))).0 ≤ c.lifetime_key1)
        × ((presses_of (record_for fl sh (some p))).1 ≤ c.lifetime_key2)
  unfolding take_over_if_pad_is_ahead
  take_over_if_pad_is_ahead-presses sh p h c waiting grown done restored =
      let ahead = pc_is_ahead (record_for fl sh (some p)) (pad_side fl p) in
      let e : (if ahead then none else some (resolve_takeover fl out sh true true)) ≡ some h =
        ap (λ x. judge_takeover fl out sh (record_for fl sh x) x) (sym waiting) ∙ done in
      let (behind, same) = if_some ahead (resolve_takeover fl out sh true true) h e in
      let taken = resolve_takeover-IsTaken sh true true c (ap (λ x. x.2) same ∙ restored) in
      let kept = kept_presses sh.state.counters c (resolve_takeover fl out sh true true) taken in
      let low = ahead_le (record_for fl sh (some p)) (pad_side fl p) behind in
      (omega (arith, kept, low, grown), omega (arith, kept, low, grown))
