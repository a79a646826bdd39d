-- ===== src/Daemon/Ending.antt =====
-- How a play ends: the cooldown, the sync and the backup (desktop/daemon/src/runtime.rs).
pub mod Backup
use opad.Tap.Float.{Float}
use opad.Daemon.State.{
  RuntimeMode, idle, playing, cooldown, sync, is_idle, is_cooldown, may_touch_pad,
}
use opad.Daemon.Events.{RuntimeAction, TosuFrame, write_auto_backup}
use opad.Model.Counters.{CounterState}
use opad.Daemon.Controller.{RuntimeController, Env}
use opad.Daemon.Step.{Step, ◌&>◌, ask, quiet}
use opad.Daemon.Attempts.{emit, finish_tap_attempt, results_animation}
use opad.Daemon.Tosu.{
  hear_frame, rest_frame, leave_playing, take_frame, tosu_telemetry, cooldown_duration,
}
use opad.Daemon.Tick.{
  tick_cooldown, tick, settle_sync, sync_completed, hear_sync, tick_backup, auto_backup_delay,
}
use opad.Daemon.Steady.{Steady, any-append}
use opad.Daemon.Steady.Timer.{tick_rest-Steady}
use opad.Prelude.{
  ℕ, ◌+◌, ◌≡◌, ◌≤◌, refl, ◌∙◌, ap, sym, Bool, true, false, Option, none, some, String, List, [],
  ◌∷◌, leb, ltb, any, arith, if◌then◌else◌,
}

-- The mode of a cooldown that ends at `deadline`, at a tick.
abbrev pub mode_at : (may_touch : Bool) (deadline now : ℕ) → RuntimeMode
mode_at may_touch deadline now =
    if leb deadline now then (if may_touch then sync else idle) else cooldown

module _ (fl : Float) where
  tick_cooldown_mode :
      (m : RuntimeController fl) (deadline now : ℕ)
      → m.state.mode ≡ cooldown
      → m.cooldown_deadline ≡ some deadline
      → (tick_cooldown fl m now).0.state.mode ≡ mode_at (may_touch_pad fl m.state) deadline now
  unfolding tick_cooldown
  tick_cooldown_mode m deadline now in_cooldown due = ground arith

  leave_mode :
      (env : Env) (m : RuntimeController fl) (frame : TosuFrame fl) (now : ℕ)
      → m.state.mode ≡ playing
      → frame.is_playing ≡ false
      → ((tosu_telemetry fl env m frame now).0.state.mode ≡ cooldown)
        × ((tosu_telemetry fl env m frame now).0.cooldown_deadline ≡ some (now + cooldown_duration))
  unfolding tosu_telemetry ◌&>◌ take_frame rest_frame leave_playing hear_frame results_animation
      finish_tap_attempt
  leave_mode env m frame now in_play over = ground arith

  -- A frame that ends a play puts the daemon in cooldown. At a tick, the cooldown still holds while
  -- the tick is less than five seconds after the frame; from five seconds on the tick leaves it, for
  -- sync where the pad may be touched and for idle where it may not.
  pub tosu_telemetry-tick :
      (env env' : Env) (m : RuntimeController fl) (frame : TosuFrame fl) (now later : ℕ)
      → m.state.mode ≡ playing
      → frame.is_playing ≡ false
      → (tick fl env' (tosu_telemetry fl env m frame now).0 later).0.state.mode
        ≡ mode_at
            (may_touch_pad fl (tosu_telemetry fl env m frame now).0.state)
            (now + cooldown_duration)
            later
  unfolding tick ◌&>◌
  tosu_telemetry-tick env env' m frame now later in_play over =
      let m' = (tosu_telemetry fl env m frame now).0 in
      let left = leave_mode env m frame now in_play over in
      (tick_rest-Steady fl env' (tick_cooldown fl m' later).0 later).mode
      ∙ tick_cooldown_mode m' (now + cooldown_duration) later left.0 left.1
