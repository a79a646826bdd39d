-- ===== src/Daemon/Writes.antt =====
-- When the daemon may write to the database (desktop/daemon/src/runtime.rs, with the flag of
-- desktop/daemon/src/main.rs that `SetStorageWritesAllowed` sets).
pub mod Pieces
pub mod Saves
pub mod Trace
use opad.Tap.Float.{Float}
use opad.Protocol.{device_protocol_version}
use opad.Model.Config.{DeviceConfig}
use opad.Daemon.State.{RuntimeMode, DeviceInfo, idle, playing, cooldown, sync, is_idle}
use opad.Daemon.Events
use opad.Daemon.Events.{RuntimeAction, RuntimeEvent, TosuFrame, set_storage_writes_allowed}
use opad.Daemon.Controller.{RuntimeController, Env, ownership_of}
use opad.Daemon.Step.{Step, ◌&>◌, quiet}
use opad.Model.Counters.{CounterState}
use opad.Daemon.Attempts.{results_animation, finish_tap_attempt, publish_tap_history}
use opad.Daemon.Connect.{welcome, device_connected}
use opad.Daemon.Tosu.{
  enter_playing, open_attempt, take_frame, tell_connection, hear_connection, is_new_attempt,
  follow_attempt, hear_clock, play_frame, rest_frame, leave_playing, tosu_telemetry, lose_tosu,
  tosu_connection_changed, drop_values, hear_frame,
}
use opad.Daemon.Tick.{tick_cooldown, tick, sync_completed, hear_sync, settle_sync}
use opad.Daemon.Dispatch.{on_event}
use opad.Daemon.Steady.{Steady, &>-Steady, is_flag, is_idle_write, any-append, branches}
use opad.Daemon.Steady.Timer.{tick_rest-Steady, sqlite_reconnected-Steady, sqlite_error-Steady}
use opad.Daemon.Steady.Pad.{
  leave_alone-Steady, greet-Steady, judge-Steady, register-Steady, announce-Steady,
  device_ownership-Steady, device_disconnected-Steady, device_counters-Steady, device_status-Steady,
  device_he_calibration_progress-Steady, device_log_batch-Steady,
}
use opad.Daemon.Steady.Play.{
  hear_frame-Steady, follow_attempt-Steady, hear_clock-Steady, open_attempt-Steady,
  results_animation-Steady, tosu_keys-Steady, pad_presses-Steady, hear_press_times-Steady,
  osu_active_changed-Steady, tell_connection-Steady, finish_tap_attempt-Steady,
}
use opad.Prelude.{
  ℕ, ◌≡◌, refl, sym, ◌∙◌, ap, Option, String, Bool, true, false, ◌||◌, List, [], ◌∷◌, ◌++◌, any,
  arith, if◌then◌else◌, is_some, unwrap_or, not, ◌==◌,
}

abbrev pub may_write : RuntimeMode → Bool
may_write idle = true
may_write sync = true
may_write playing = false
may_write cooldown = false

module _ {fl : Float} where
  abbrev flag_after : Bool → RuntimeAction fl → Bool
  flag_after allowed (set_storage_writes_allowed flag) = flag
  flag_after allowed _ = allowed

  -- The flag after the actions.
  unfoldable pub set_writes : Bool → List (RuntimeAction fl) → Bool
  set_writes allowed [] = allowed
  set_writes allowed (action ∷ rest) = set_writes (flag_after allowed action) rest

  -- The flag follows the mode.
  pub record Gated (m : RuntimeController fl) (s : Step fl) : Type 0 where
    pub gate : set_writes (may_write m.state.mode) s.1 ≡ may_write s.0.state.mode

  -- It writes nothing, but maybe a connecting pad's configuration.
  pub record Silent (s : Step fl) : Type 0 where
    pub none_of : any is_idle_write s.1 ≡ false

  -- Where it writes more than that, it is idle afterwards.
  pub record WritesIdle (s : Step fl) : Type 0 where
    pub when : any is_idle_write s.1 ≡ true → is_idle s.0.state.mode ≡ true

  pub set_writes-append :
      (allowed : Bool) (xs ys : List (RuntimeAction fl))
      → set_writes allowed (xs ++ ys) ≡ set_writes (set_writes allowed xs) ys
  unfolding set_writes
  set_writes-append allowed [] ys = refl
  set_writes-append allowed (x ∷ xs) ys = set_writes-append (flag_after allowed x) xs ys

  flag_after_other :
      (allowed : Bool) (x : RuntimeAction fl) → is_flag x ≡ false → flag_after allowed x ≡ allowed
  flag_after_other allowed x h = ground arith

  pub set_writes_other :
      (allowed : Bool) (xs : List (RuntimeAction fl))
      → any is_flag xs ≡ false
      → set_writes allowed xs ≡ allowed
  unfolding set_writes
  set_writes_other allowed [] h = refl
  set_writes_other allowed (x ∷ xs) h =
      let rest = set_writes_other allowed xs (ground arith) in
      ground (arith, rest, flag_after_other allowed x)

  pub Steady-Gated : {m : RuntimeController fl} {s : Step fl} → Steady m s → Gated m s
  Steady-Gated {m = m} {s = s} hs = record {
    gate = set_writes_other (may_write m.state.mode) s.1 hs.flag ∙ ap may_write (sym hs.mode);
  }

  pub &>-Gated :
      {m : RuntimeController fl} {s : Step fl} {f : RuntimeController fl → Step fl}
      → Gated m s
      → ((n : RuntimeController fl) → Gated n (f n))
      → Gated m (s &> f)
  unfolding ◌&>◌
  &>-Gated {m = m} {s = s} {f = f} hs hf =
      let append = set_writes-append (may_write m.state.mode) s.1 (f s.0).1 in
      record { gate = append ∙ (ap (λ b. set_writes b (f s.0).1) hs.gate ∙ (hf s.0).gate) }

  pub Steady-WritesIdle : {m : RuntimeController fl} {s : Step fl} → Steady m s → WritesIdle s
  Steady-WritesIdle hs = record { when = λ h. ap is_idle hs.mode ∙ hs.writes h }

  pub &>-WritesIdle :
      {s : Step fl} {f : RuntimeController fl → Step fl}
      → Silent s
      → ((n : RuntimeController fl) → WritesIdle (f n))
      → WritesIdle (s &> f)
  unfolding ◌&>◌
  &>-WritesIdle {s = s} {f = f} hs hf =
      let append = any-append is_idle_write s.1 (f s.0).1 in
      record { when = λ h. ground (arith, append, hs.none_of, (hf s.0).when, h) }

  pub Silent-WritesIdle : {s : Step fl} → Silent s → WritesIdle s
  Silent-WritesIdle silent = record { when = λ h. ground (arith, silent.none_of, h) }

  pub &>-Silent :
      {s : Step fl} {f : RuntimeController fl → Step fl}
      → Silent s
      → ((n : RuntimeController fl) → Silent (f n))
      → Silent (s &> f)
  unfolding ◌&>◌
  &>-Silent {s = s} {f = f} hs hf =
      let append = any-append is_idle_write s.1 (f s.0).1 in
      record { none_of = ground (arith, append, hs.none_of, (hf s.0).none_of) }
