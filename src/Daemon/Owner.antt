-- ===== src/Daemon/Owner.antt =====
-- What is asked of a pad that belongs to another install (desktop/daemon/src/runtime.rs).
use opad.Tap.Float.{Float}
use opad.Protocol.{device_protocol_version}
use opad.Model.Config.{DeviceConfig}
use opad.Daemon.State.{DeviceInfo, DaemonState, may_touch_pad, pad_guard}
use opad.Daemon.Events
use opad.Daemon.Events.{RuntimeEvent}
use opad.Daemon.Controller.{RuntimeController, Env, Ownership, ownership_of}
use opad.Daemon.Step.{Step, ◌&>◌, quiet}
use opad.Daemon.Connect.{greet, judge, register, enroll, welcome, device_connected}
use opad.Daemon.Device.{device_disconnected}
use opad.Daemon.Dispatch.{on_event}
use opad.Daemon.Steady.{Heeds, branches, is_push, is_sync, any-append}
use opad.Daemon.Steady.Timer.{
  sqlite_error-Heeds, sqlite_reconnected-Heeds, sync_completed-Heeds, tick-Heeds,
}
use opad.Daemon.Steady.Pad.{
  device_counters-Heeds, device_he_calibration_progress-Heeds, device_log_batch-Heeds,
  device_ownership-Heeds, device_status-Heeds, leave_alone-Heeds, announce-Heeds,
}
use opad.Daemon.Steady.Play.{
  hear_press_times-Heeds, osu_active_changed-Heeds, pad_presses-Heeds,
  tosu_connection_changed-Heeds, tosu_keys-Heeds, tosu_telemetry-Heeds,
}
use opad.Prelude.{
  none, ℕ, ◌≡◌, ◌∙◌, sym, true, false, not, ◌||◌, ◌==◌, Option, [], any, arith, is_some, unwrap_or,
}

module _ {fl : Float} where
  -- The step heeds the owner and the prompts that hold after it.
  pub record Guarded (s : Step fl) : Type 0 where
    pub pushes : s.0.state.foreign_pad ≡ true → any is_push s.1 ≡ false
    pub syncs : any is_sync s.1 ≡ true → may_touch_pad fl s.0.state ≡ true

  Heeds-Guarded : {m : RuntimeController fl} {s : Step fl} → Heeds m s → Guarded s
  Heeds-Guarded h = record {
    pushes = λ foreign. h.pushes (sym h.foreign ∙ foreign);
    syncs = λ wants. h.guard ∙ h.syncs wants;
  }

  -- A step before the first sync: it may change the owner.
  record Judged (s : Step fl) : Type 0 where
    pub pushes : s.0.state.foreign_pad ≡ true → any is_push s.1 ≡ false
    pub syncs : any is_sync s.1 ≡ false

  -- A step that changes nothing of the pad, and leaves its owner.
  record Harmless (m : RuntimeController fl) (s : Step fl) : Type 0 where
    pub foreign : s.0.state.foreign_pad ≡ m.state.foreign_pad
    pub pushes : any is_push s.1 ≡ false
    pub syncs : any is_sync s.1 ≡ false

  Harmless-Judged : {m : RuntimeController fl} {s : Step fl} → Harmless m s → Judged s
  Harmless-Judged h = record { pushes = λ foreign. h.pushes; syncs = h.syncs }

  add_judge :
      {m : RuntimeController fl} {s : Step fl} {f : RuntimeController fl → Step fl}
      → Harmless m s
      → ((n : RuntimeController fl) → Judged (f n))
      → Judged (s &> f)
  unfolding ◌&>◌
  add_judge {s = s} {f = f} hs hf =
      let append = any-append is_push s.1 (f s.0).1 in
      let append' = any-append is_sync s.1 (f s.0).1 in
      record {
        pushes = λ h. ground (arith, append, hs.pushes, (hf s.0).pushes, h);
        syncs = ground (arith, append', hs.syncs, (hf s.0).syncs);
      }

  add_register :
      {s : Step fl} {f : RuntimeController fl → Step fl}
      → Judged s
      → ((n : RuntimeController fl) → Harmless n (f n))
      → Judged (s &> f)
  unfolding ◌&>◌
  add_register {s = s} {f = f} hs hf =
      let append = any-append is_push s.1 (f s.0).1 in
      let append' = any-append is_sync s.1 (f s.0).1 in
      let next = hf s.0 in
      record {
        pushes = λ h. ground (arith, append, hs.pushes, next.pushes, next.foreign, h);
        syncs = ground (arith, append', hs.syncs, next.syncs);
      }

  add_announce :
      {s : Step fl} {f : RuntimeController fl → Step fl}
      → Judged s
      → ((n : RuntimeController fl) → Heeds n (f n))
      → Guarded (s &> f)
  unfolding ◌&>◌
  add_announce {s = s} {f = f} hs hf =
      let append = any-append is_push s.1 (f s.0).1 in
      let append' = any-append is_sync s.1 (f s.0).1 in
      let next = hf s.0 in
      record {
        pushes = λ h. ground (arith, append, hs.pushes, next.pushes, next.foreign, h);
        syncs = λ h. ground (arith, append', hs.syncs, next.syncs, next.guard, h);
      }

module _ (fl : Float) where
  quiet-Heeds : (m : RuntimeController fl) → Heeds m (quiet m)
  quiet-Heeds m = ground arith

  greet-Harmless :
      (m : RuntimeController fl) (info : DeviceInfo) (cfg : Option DeviceConfig)
      → Harmless m (greet fl m info cfg)
  unfolding greet ◌&>◌
  greet-Harmless m info cfg = ground arith

  judge-Judged :
      (m : RuntimeController fl) (info : DeviceInfo) (owner : Ownership)
      → Judged (judge fl m info owner)
  unfolding judge
  judge-Judged m info owner = ground arith

  register-Harmless :
      (env : Env) (m : RuntimeController fl) (info : DeviceInfo)
      → Harmless m (register fl env m info)
  unfolding register enroll
  register-Harmless env m info = ground arith

  device_disconnected-Guarded :
      (m : RuntimeController fl) → Guarded (quiet (device_disconnected fl m))
  unfolding device_disconnected
  device_disconnected-Guarded m = ground arith

  welcome-Guarded :
      (env : Env) (m : RuntimeController fl) (info : DeviceInfo) (cfg : Option DeviceConfig)
      (now : ℕ)
      → Guarded (welcome fl env m info cfg now)
  unfolding welcome
  welcome-Guarded env m info cfg now =
      add_announce
        (add_register
          (add_judge (greet-Harmless m info cfg) (λ n.
            judge-Judged n info
              (ownership_of env n.state.install_id (unwrap_or n.reported_owner []))))
          (λ n. register-Harmless env n info))
        (λ n. announce-Heeds fl n now (not (is_some cfg) || n.state.nvs_restore_pending))

  device_connected-Guarded :
      (env : Env) (m : RuntimeController fl) (info : DeviceInfo) (cfg : Option DeviceConfig)
      (now : ℕ)
      → Guarded (device_connected fl env m info cfg now)
  unfolding device_connected
  device_connected-Guarded env m info cfg now =
      branches Guarded (info.protocol_version == device_protocol_version)
        (welcome-Guarded env m info cfg now) (Heeds-Guarded (leave_alone-Heeds fl m info))

  on_event-Guarded :
      (env : Env) (m : RuntimeController fl) (event : RuntimeEvent fl) (now : ℕ)
      → Guarded (on_event fl env m event now)
  unfolding on_event
  on_event-Guarded env m (Events.device_connected info cfg) now =
      device_connected-Guarded env m info cfg now
  on_event-Guarded env m Events.device_disconnected now = device_disconnected-Guarded m
  on_event-Guarded env m (Events.device_ownership owner_id) now =
      Heeds-Guarded (device_ownership-Heeds fl m owner_id)
  on_event-Guarded env m (Events.device_counters report) now =
      Heeds-Guarded (device_counters-Heeds fl m report)
  on_event-Guarded env m (Events.device_status latency cal) now =
      Heeds-Guarded (device_status-Heeds fl m latency cal)
  on_event-Guarded env m (Events.device_he_calibration_progress prog) now =
      Heeds-Guarded (device_he_calibration_progress-Heeds fl m prog)
  on_event-Guarded env m (Events.device_layout_ack screen acked message) now =
      Heeds-Guarded (quiet-Heeds m)
  on_event-Guarded env m (Events.device_log_batch events) now =
      Heeds-Guarded (device_log_batch-Heeds fl m events)
  on_event-Guarded env m (Events.tosu_telemetry frame) now =
      Heeds-Guarded (tosu_telemetry-Heeds fl env m now frame)
  on_event-Guarded env m (Events.tosu_keys keys) now = Heeds-Guarded (tosu_keys-Heeds fl m keys)
  on_event-Guarded env m (Events.pad_press_times on) now =
      Heeds-Guarded (hear_press_times-Heeds fl m on)
  on_event-Guarded env m (Events.pad_presses now_us batch dropped received) now =
      Heeds-Guarded (pad_presses-Heeds fl m now_us batch received)
  on_event-Guarded env m (Events.tosu_connection_changed connected) now =
      Heeds-Guarded (tosu_connection_changed-Heeds fl env m now connected)
  on_event-Guarded env m (Events.osu_active_changed active) now =
      Heeds-Guarded (osu_active_changed-Heeds fl m active now)
  on_event-Guarded env m (Events.tick at) now = Heeds-Guarded (tick-Heeds fl env m at)
  on_event-Guarded env m (Events.sync_completed success counters time_str error) now =
      Heeds-Guarded (sync_completed-Heeds fl m success counters time_str error now)
  on_event-Guarded env m (Events.sqlite_reconnected config layouts stored) now =
      Heeds-Guarded (sqlite_reconnected-Heeds fl m config layouts stored)
  on_event-Guarded env m (Events.sqlite_error message) now =
      Heeds-Guarded (sqlite_error-Heeds fl m message)

  -- If the pad belongs to another install after an event, then all that the event asks of the pad is
  -- the time, its status, the host's status, or the check whether it is ahead (which may take it
  -- over): no configuration, layout, values or animation, no sync, and no claim without that check.
  pub on_event_foreign :
      (env : Env) (m : RuntimeController fl) (event : RuntimeEvent fl) (now : ℕ)
      → (on_event fl env m event now).0.state.foreign_pad ≡ true
      → any is_push (on_event fl env m event now).1 ≡ false
  on_event_foreign env m event now = (on_event-Guarded env m event now).pushes

  -- No pad of another install is connected, and no prompt waits for the user's answer.
  pub record IsOwn (st : DaemonState fl) : Type 0 where
    pub not_foreign : st.foreign_pad ≡ false
    pub no_takeover : st.pending_takeover ≡ none
    pub no_replacement : st.pending_replacement ≡ none

  may_touch_pad-IsOwn : (st : DaemonState fl) → may_touch_pad fl st ≡ true → IsOwn st
  unfolding may_touch_pad pad_guard
  may_touch_pad-IsOwn st h = record {
    not_foreign = ground arith;
    no_takeover = ground arith;
    no_replacement = ground arith;
  }

  -- If an event asks for a sync, then after it no pad of another install is connected and neither a
  -- takeover nor a replacement waits for the user's answer.
  pub on_event_syncs :
      (env : Env) (m : RuntimeController fl) (event : RuntimeEvent fl) (now : ℕ)
      → any is_sync (on_event fl env m event now).1 ≡ true
      → IsOwn (on_event fl env m event now).0.state
  on_event_syncs env m event now h =
      may_touch_pad-IsOwn (on_event fl env m event now).0.state
        ((on_event-Guarded env m event now).syncs h)
