-- ===== src/Service/Requests/Owner.antt =====
-- `ResolveTakeover`, `ResolveReplacement` and `take_over_if_pad_is_ahead`
-- (desktop/daemon/src/ipc_handlers.rs).
use Prim.Native.String.{◌++◌ as str_append}
use opad.Tap.Float.{Float}
use opad.Layout.{Screen, Layout}
use opad.Model.Counters.{CounterState, pc_is_ahead}
use opad.Daemon.State.{DeviceInfo, PendingTakeover}
use opad.Service.Store.{Storage, save_device_state, touch_device_last_seen}
use opad.Service.Link.{
  PadCall, Shared, Outside, in_storage, send_config, send_layout, send_counter_sync,
  claim_ownership,
}
use opad.Service.Requests.{
  Handled, in_play, returns_if, first_return, unless, error, operation_rejected, operation_deferred,
  counters_reset, counters_restored, next_generation, generation_of, target_counters, loaded,
}
use opad.Prelude.{
  ℕ, max, Bool, true, false, not, Option, none, some, List, [], ◌∷◌, String, str_eq, is_some,
  Result, ok, err, if◌then◌else◌,
}

abbrev pub presses_of : Option CounterState → ℕ × ℕ
presses_of none = (0, 0)
presses_of (some c) = (c.lifetime_key1, c.lifetime_key2)

abbrev pub layout_calls : List (Screen × Layout) → List PadCall
layout_calls [] = []
layout_calls ((screen, layout) ∷ rest) = send_layout screen layout ∷ layout_calls rest

-- `install_id.as_deref().and_then(parse_owner_id)`
abbrev pub owner_bytes : (String → Option (List ℕ)) → Option String → Option (List ℕ)
owner_bytes parse none = none
owner_bytes parse (some id) = parse id

module _ (fl : Float) where
  abbrev pub with_takeover : Shared fl → Option PendingTakeover → Shared fl
  with_takeover sh pending = record sh { state = record (sh.state) { pending_takeover = pending } }

  -- The counters that survive, in a generation above both sides'.
  unfoldable pub takeover_target :
      DeviceInfo → CounterState → Option CounterState → Bool → CounterState
  takeover_target info own pc keep =
      let (key1, key2) = if keep then (own.lifetime_key1, own.lifetime_key2) else presses_of pc in
      target_counters info.device_id
        (next_generation (max (generation_of pc) own.counter_generation)) key1 key2

  abbrev pub own_pad : Shared fl → CounterState → Shared fl
  own_pad sh c = record sh {
    state = record (sh.state) {
      foreign_pad = false;
      counters = c;
      pc_counters = some c;
      esp_counters = some c;
    };
  }

  -- After the pad's answer to the claim.
  unfoldable pub claimed :
      Outside fl
      → Shared fl
      → DeviceInfo
      → PendingTakeover
      → CounterState
      → List ℕ
      → Result String Unit
      → Handled fl
  claimed out sh info pending c owner (err e) = (
    with_takeover (out.meanwhile 0 sh) (some pending),
    claim_ownership owner ∷ [],
    error (str_append "Could not record ownership on the pad: " e),
  )
  claimed out sh info pending c owner (ok u) =
      let saved =
        in_storage fl (λ s. touch_device_last_seen out.now s info.device_id)
          (in_storage fl (λ s. save_device_state out.now s info c) (out.meanwhile 0 sh)) in
      let synced = out.meanwhile 1 saved in
      (
        own_pad (out.meanwhile 2 synced) c,
        claim_ownership owner
            ∷ send_counter_sync c true
            ∷ send_config synced.state.config
            ∷ layout_calls synced.state.custom_layouts,
        counters_restored c,
      )

  abbrev pub claim :
      Outside fl
      → Shared fl
      → DeviceInfo
      → PendingTakeover
      → CounterState
      → Option (List ℕ)
      → Handled fl
  claim out sh info pending c none = (
    with_takeover sh (some pending),
    [],
    operation_rejected "This install has no identity, so it cannot take a pad over",
  )
  claim out sh info pending c (some owner) = claimed out sh info pending c owner out.claims

  -- `sh` no longer shows the prompt.
  abbrev pub decide :
      Outside fl → Shared fl → Option PendingTakeover → Option DeviceInfo → Bool → Bool → Handled fl
  decide out sh none info take_over keep =
      (sh, [], operation_rejected "No pad is waiting on an ownership decision")
  decide out sh (some pending) none take_over keep =
      (sh, [], operation_rejected "No device currently connected")
  decide out sh (some pending) (some info) false keep =
      (sh, [], operation_rejected "Left the pad paired with its other installation")
  decide out sh (some pending) (some info) true keep =
      let c = takeover_target info sh.state.counters (loaded fl sh.storage info.device_id) keep in
      let taken = claim out sh info pending c (owner_bytes out.parse_uuid sh.state.install_id) in
      let kept : Handled fl =
        (with_takeover sh (some pending), [], operation_rejected "Database unavailable") in
      if is_some sh.storage then taken else kept

  unfoldable pub resolve_takeover : Outside fl → Shared fl → Bool → Bool → Handled fl
  unfolding loaded takeover_target claimed
  resolve_takeover out sh take_over keep =
      unless fl
        (returns_if (in_play sh.state.mode)
          (operation_deferred "Cannot resolve pad ownership during gameplay or cooldown"))
        sh
        (decide out (with_takeover sh none) sh.state.pending_takeover sh.state.device_info take_over
          keep)

  abbrev pub own_counters : Option CounterState → String → Option CounterState
  own_counters none id = none
  own_counters (some c) id = if str_eq c.device_id id then some c else none

  abbrev pub first_of : Option CounterState → Option CounterState → Option CounterState
  first_of none c = c
  first_of (some stored) c = some stored

  abbrev pub pad_side : PendingTakeover → CounterState
  pad_side p = target_counters p.device_id 0 p.device_key1 p.device_key2

  -- What is done for the prompt `p`, given this PC's counters for the pad.
  abbrev pub judge_takeover :
      Outside fl → Shared fl → Option CounterState → Option PendingTakeover → Option (Handled fl)
  judge_takeover out sh pc none = none
  judge_takeover out sh pc (some p) =
      if pc_is_ahead pc (pad_side p) then none else some (resolve_takeover out sh true true)

  abbrev pub record_for : Shared fl → Option PendingTakeover → Option CounterState
  record_for sh none = none
  record_for sh (some p) =
      first_of (loaded fl sh.storage p.device_id) (own_counters sh.state.pc_counters p.device_id)

  -- Resolves the prompt without asking where the pad has at least this PC's presses.
  unfoldable pub take_over_if_pad_is_ahead : Outside fl → Shared fl → Option (Handled fl)
  unfolding loaded resolve_takeover pc_is_ahead
  take_over_if_pad_is_ahead out sh =
      judge_takeover out sh (record_for sh sh.state.pending_takeover) sh.state.pending_takeover

  abbrev pub restore_old : Outside fl → Shared fl → DeviceInfo → Option CounterState → Handled fl
  restore_old out sh info none =
      (sh, [], operation_rejected "No previous device state found to restore from")
  restore_old out sh info (some old) =
      let c =
        target_counters info.device_id
          (next_generation (max old.counter_generation sh.state.counters.counter_generation))
          old.lifetime_key1 old.lifetime_key2 in
      let saved =
        in_storage fl (λ s. touch_device_last_seen out.now s info.device_id)
          (in_storage fl (λ s. save_device_state out.now s info c) sh) in
      let sent = out.meanwhile 0 saved in
      (
        record sent { state = record (sent.state) { counters = c } },
        send_counter_sync c true ∷ [],
        counters_reset c,
      )

  abbrev pub old_counters : Option Storage → Option String → Option CounterState
  old_counters storage none = none
  old_counters storage (some id) = loaded fl storage id

  abbrev pub adopt_new : Outside fl → Shared fl → DeviceInfo → Handled fl
  adopt_new out sh info = (
    in_storage fl (λ s. touch_device_last_seen out.now s info.device_id)
        (in_storage fl (λ s. save_device_state out.now s info sh.state.counters) sh),
    [],
    counters_reset sh.state.counters,
  )

  abbrev pub replace :
      Outside fl → Shared fl → Option String → Option DeviceInfo → Bool → Handled fl
  replace out sh old none restore =
      (sh, [], operation_rejected "No device currently connected to resolve replacement for")
  replace out sh old (some info) true = restore_old out sh info (old_counters sh.storage old)
  replace out sh old (some info) false = adopt_new out sh info

  unfoldable pub resolve_replacement : Outside fl → Shared fl → Bool → Handled fl
  unfolding loaded
  resolve_replacement out sh restore =
      let answered : Shared fl = record sh {
        state = record (sh.state) { pending_replacement = none };
      } in
      unless fl
        (first_return (
          returns_if (in_play sh.state.mode)
            (operation_rejected "Cannot resolve replacement during gameplay or cooldown")
          ∷ returns_if (not (is_some sh.storage)) (operation_rejected "Database unavailable")
          ∷ []))
        sh (replace out answered sh.state.pending_replacement sh.state.device_info restore)
