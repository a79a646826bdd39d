-- ===== src/Service/Sync.antt =====
-- `perform_sync` (desktop/daemon/src/sync.rs). One runs at a time; each wait lets the other tasks go on.
pub mod Agreed
pub mod Outcome
pub mod Failure
use Prim.Native.String.{◌++◌ as str_append}
use opad.Tap.Float.{Float}
use opad.Layout.{Screen, Layout, screen_to_wire}
use opad.Model.Config.{DeviceConfig}
use opad.Model.Counters.{CounterState, reconcile_counters, counter_reset}
use opad.Daemon.State.{
  DaemonState, DeviceInfo, PendingOperations, PendingCounterReset, GuardReason, belongs_to_another,
  replacement_waits, applies_to, pad_guard,
}
use opad.Service.Store.{
  Storage, load_device_state, save_device_state, touch_device_last_seen, save_config, save_layout,
  delete_layout,
}
use opad.Service.Link.{
  PadCall, SyncReply, Shared, Outside, in_storage, with_state, request_status, send_time_sync,
  send_config, send_layout, reset_layout, send_counter_sync, accepted, closed, timed_out, not_sent,
  rejected,
}
use opad.Prelude.{
  ℕ, zero, suc, ◌+◌, Bool, true, false, not, ◌&&◌, Option, none, some, List, [], ◌∷◌, ◌++◌, String,
  str_eq, ◌==◌, is_some, Result, ok, err, if◌then◌else◌,
}

abbrev pub same_counters : CounterState → CounterState → Bool
same_counters a b =
    str_eq a.device_id b.device_id
    && (a.counter_generation == b.counter_generation
        && (a.lifetime_key1 == b.lifetime_key1
            && (a.lifetime_key2 == b.lifetime_key2
                && (a.map_key1 == b.map_key1 && a.map_key2 == b.map_key2))))

abbrev pub unseen : String → ℕ → CounterState
unseen id generation = record {
  device_id = id;
  counter_generation = generation;
  lifetime_key1 = 0;
  lifetime_key2 = 0;
  map_key1 = 0;
  map_key2 = 0;
}

-- Each round asks for the status; the first that hears `Idle` ends the wait.
unfoldable pub wait_idle : List (Option Bool) → Bool × List PadCall
wait_idle [] = (false, [])
wait_idle (some true ∷ rest) = (true, request_status ∷ [])
wait_idle (some false ∷ rest) = let later = wait_idle rest in (later.0, request_status ∷ later.1)
wait_idle (none ∷ rest) = let later = wait_idle rest in (later.0, request_status ∷ later.1)

abbrev pub reply_at : List SyncReply → SyncReply
reply_at [] = timed_out
reply_at (r ∷ rs) = r

abbrev pub replies_after : List SyncReply → List SyncReply
replies_after [] = []
replies_after (r ∷ rs) = rs

-- The reset that waits for this pad.
unfoldable pub reset_for : PendingOperations → String → Option PendingCounterReset
unfolding applies_to
reset_for p id = elim p.pending_device_push [
  | none ↦ none
  | some r ↦ if applies_to r id then some r else none
]

abbrev pub same_reset : PendingCounterReset → PendingCounterReset → Bool
same_reset a b = elim a.device_id [
  | none ↦ not (is_some b.device_id)
  | some id ↦ elim b.device_id [ none ↦ false | some other ↦ str_eq id other ]
]

abbrev pub append : String → String → String
append = str_append

-- The counters that an attempt after this reply sends.
unfoldable pub refreshed : CounterState → SyncReply → CounterState
refreshed reconciled (rejected message (some device_now)) = reconcile_counters reconciled device_now
refreshed reconciled (rejected message none) = reconciled
refreshed reconciled accepted = reconciled
refreshed reconciled closed = reconciled
refreshed reconciled timed_out = reconciled
refreshed reconciled (not_sent message) = reconciled

abbrev pub message_of : SyncReply → String
message_of accepted = ""
message_of closed = "Event channel closed"
message_of timed_out = "Timeout waiting for CounterSyncResponse (2s)"
message_of (not_sent message) = append "Failed to send CounterSync: " message
message_of (rejected message now) = message

abbrev pub is_accepted : SyncReply → Bool
is_accepted accepted = true
is_accepted closed = false
is_accepted timed_out = false
is_accepted (not_sent message) = false
is_accepted (rejected message now) = false

abbrev pub with_reset :
    Option PendingCounterReset → String → CounterState → CounterState → CounterState
with_reset none id reconciled in_memory = reconciled
with_reset (some r) id reconciled in_memory = counter_reset id reconciled in_memory

abbrev pub clear_reset :
    Option PendingCounterReset → Option PendingCounterReset → Option PendingCounterReset
clear_reset none queued = queued
clear_reset (some r) none = none
clear_reset (some r) (some q) = if same_reset q r then none else some q

abbrev pub stored_or : Option CounterState → CounterState → CounterState
stored_or none c = c
stored_or (some stored) c = stored

module _ (fl : Float) where
  abbrev pub guard_text : GuardReason fl → String
  guard_text belongs_to_another =
      "Pad belongs to another install; resolve the takeover prompt first"
  guard_text replacement_waits =
      "A replacement pad is waiting on your answer; resolve that prompt first"

  pub record Attempts : Type 0 where
    pub shared : Shared fl
    pub calls : List PadCall
    pub reconciled : CounterState
    pub result : Result String Unit

  abbrev with_error : Shared fl → String → Shared fl
  with_error sh message = record sh { state = record (sh.state) { last_sync_error = some message } }

  -- A refreshed value is saved where it differs.
  unfoldable pub save_refreshed :
      Outside fl → DeviceInfo → CounterState → CounterState → Shared fl → Shared fl
  save_refreshed out info before after sh =
      if same_counters after before
      then sh
      else in_storage fl (λ s. save_device_state out.now s info after) sh

  -- One attempt: the pad takes the counters, or the others decide.
  abbrev pub tried : Bool → Shared fl → CounterState → Bool → Attempts → Attempts
  tried true heard c force rest = record {
    shared = heard;
    calls = send_counter_sync c force ∷ [];
    reconciled = c;
    result = ok tt;
  }
  tried false heard c force rest = record rest { calls = send_counter_sync c force ∷ rest.calls }

  -- The attempts that are left, from the `wait`-th wait on.
  unfoldable pub attempts :
      Outside fl
      → DeviceInfo
      → Bool
      → ℕ
      → ℕ
      → List SyncReply
      → String
      → CounterState
      → Shared fl
      → Attempts
  unfolding refreshed save_refreshed
  attempts out info force zero wait replies message reconciled sh = record {
    shared = sh;
    calls = [];
    reconciled = reconciled;
    result = err message;
  }
  attempts out info force (suc left) wait replies message reconciled sh =
      let reply = reply_at replies in
      let heard = out.meanwhile wait sh in
      let next = refreshed reconciled reply in
      let slept = out.meanwhile (wait + 1) (save_refreshed out info reconciled next heard) in
      let rest =
        attempts out info force left (wait + 2) (replies_after replies) (message_of reply) next
          slept in
      tried (is_accepted reply) heard reconciled force rest

  -- The pending layouts, saved or deleted, and sent.
  unfoldable pub drain_layouts :
      Outside fl → ℕ → List (Screen × Option Layout) → Shared fl → Shared fl × List PadCall
  drain_layouts out wait [] sh = (sh, [])
  drain_layouts out wait ((screen, some layout) ∷ rest) sh =
      let saved =
        in_storage fl (λ s. save_layout s (screen_to_wire screen) (out.to_json layout)) sh in
      let later = drain_layouts out (suc wait) rest (out.meanwhile wait saved) in
      (later.0, send_layout screen layout ∷ later.1)
  drain_layouts out wait ((screen, none) ∷ rest) sh =
      let deleted = in_storage fl (λ s. delete_layout s (screen_to_wire screen)) sh in
      let later = drain_layouts out (suc wait) rest (out.meanwhile wait deleted) in
      (later.0, reset_layout screen ∷ later.1)

  unfoldable pub drain_config :
      Outside fl → Option DeviceConfig → Shared fl → Shared fl × List PadCall
  drain_config out none sh = (sh, [])
  drain_config out (some cfg) sh =
      let sent = out.meanwhile 8 (in_storage fl (λ s. save_config s cfg) sh) in
      (record sent { state = record (sent.state) { config = cfg } }, send_config cfg ∷ [])

  unfoldable pub drain_seen : Outside fl → Option String → Shared fl → Shared fl
  drain_seen out none sh = sh
  drain_seen out (some id) sh = in_storage fl (λ s. touch_device_last_seen out.now s id) sh

  -- What the delivered sync leaves in the queue.
  abbrev pub taken : Option PendingCounterReset → Shared fl → Shared fl
  taken reset sh = record sh {
    pending_ops = record {
      pending_config = none;
      pending_layouts = [];
      pending_device_push = clear_reset reset sh.pending_ops.pending_device_push;
      pending_last_seen = none;
    };
  }

  abbrev pub synced : Outside fl → CounterState → Shared fl → Shared fl
  synced out c sh = record sh {
    state = record (sh.state) {
      counters = c;
      pc_counters = some c;
      esp_counters = some c;
      last_sync_time = some out.now;
      last_sync_error = none;
    };
  }

  -- The success path.
  unfoldable pub complete_sync :
      Outside fl
      → DeviceInfo
      → Option PendingCounterReset
      → CounterState
      → Shared fl
      → Shared fl × List PadCall
  unfolding drain_layouts drain_config drain_seen
  complete_sync out info reset c sh =
      let sh1 = out.meanwhile 7 sh in
      let sh2 =
        in_storage fl (λ s. touch_device_last_seen out.now s info.device_id)
          (in_storage fl (λ s. save_device_state out.now s info c) sh1) in
      let queue = sh2.pending_ops in
      let cfg = drain_config out queue.pending_config (taken reset sh2) in
      let lay = drain_layouts out 9 queue.pending_layouts cfg.0 in
      (
        synced out c (drain_seen out queue.pending_last_seen lay.0),
        send_time_sync ∷ (cfg.1 ++ lay.1),
      )

  -- This PC's counters for the pad; none are known where the database does not answer.
  unfoldable pub stored_counters : Shared fl → DeviceInfo → CounterState → CounterState
  stored_counters sh info in_memory =
      let none_yet = unseen info.device_id in_memory.counter_generation in
      elim sh.storage [
        | none ↦ none_yet
        | some s ↦ elim (load_device_state s info.device_id) [
          | ok found ↦ stored_or found none_yet
          | err e ↦ none_yet
        ]
      ]

  unfoldable pub conclude :
      Outside fl
      → DeviceInfo
      → Option PendingCounterReset
      → List PadCall
      → Attempts
      → Result String Unit
      → Shared fl × List PadCall × Result String CounterState
  unfolding complete_sync
  conclude out info reset asked done (ok u) =
      let end = complete_sync out info reset done.reconciled done.shared in
      (end.0, asked ++ (done.calls ++ end.1), ok done.reconciled)
  conclude out info reset asked done (err message) = (
    with_error done.shared (append "Counter sync failed: " message),
    asked ++ done.calls,
    err message,
  )

  unfoldable pub if_idle :
      Bool
      → Shared fl
      → List PadCall
      → Shared fl × List PadCall × Result String CounterState
      → Shared fl × List PadCall × Result String CounterState
  if_idle true sh asked done = done
  if_idle false sh asked done = (
    with_error sh "Device not in IDLE state within 3s timeout",
    asked,
    err "Device not in IDLE state within 3s timeout",
  )

  -- The reconciled counters with the reset that waits for the pad.
  unfoldable pub starting : Shared fl → DeviceInfo → CounterState → CounterState
  unfolding reset_for stored_counters
  starting sh info in_memory =
      with_reset (reset_for sh.pending_ops info.device_id) info.device_id
        (reconcile_counters (stored_counters sh info in_memory) in_memory) in_memory

  -- The three attempts, after the first save.
  unfoldable pub begun : Outside fl → DeviceInfo → CounterState → Shared fl → Attempts
  unfolding starting attempts reset_for
  begun out info in_memory sh =
      let c = starting sh info in_memory in
      attempts out info (is_some (reset_for sh.pending_ops info.device_id)) 3 1 out.replies "" c
        (in_storage fl (λ s. save_device_state out.now s info c) sh)

  -- From the snapshot `in_memory` of the counters on.
  unfoldable pub sync_with :
      Outside fl
      → DeviceInfo
      → CounterState
      → Shared fl
      → Shared fl × List PadCall × Result String CounterState
  unfolding wait_idle reset_for begun conclude if_idle
  sync_with out info in_memory sh =
      let polled = wait_idle out.polls in
      let sh1 = out.meanwhile 0 sh in
      let done = begun out info in_memory sh1 in
      if_idle polled.0 sh1 polled.1
        (conclude out info (reset_for sh1.pending_ops info.device_id) polled.1 done done.result)

  -- The paths on which nothing is synced, by what the state shows at the start.
  unfoldable pub with_guards :
      Outside fl
      → Shared fl
      → Bool
      → Option (GuardReason fl)
      → Option DeviceInfo
      → Bool
      → Shared fl × List PadCall × Result String CounterState
  unfolding sync_with
  with_guards out sh false guard info connected = (
    with_error sh "Sync skipped: persistent storage unavailable",
    [],
    err "Sync skipped: persistent storage unavailable",
  )
  with_guards out sh true (some reason) info connected = (sh, [], err (guard_text reason))
  with_guards out sh true none none connected = (sh, [], ok sh.state.counters)
  with_guards out sh true none (some info) false = (sh, [], ok sh.state.counters)
  with_guards out sh true none (some info) true = sync_with out info sh.state.counters sh

  unfoldable pub perform_sync :
      Outside fl → Shared fl → Shared fl × List PadCall × Result String CounterState
  unfolding with_guards pad_guard
  perform_sync out sh =
      with_guards out sh (is_some sh.storage) (pad_guard fl sh.state) sh.state.device_info
        sh.state.device_connected
