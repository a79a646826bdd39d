-- ===== src/Daemon/Steady/Play.antt =====
-- The pieces of the handlers of tosu's and the desktop's messages (desktop/daemon/src/runtime.rs).
use opad.Tap.Float.{Float}
use opad.Daemon.State.{may_touch_pad, pad_guard}
use opad.Daemon.Events.{KeyCounts, TosuFrame}
use opad.Daemon.Controller.{RuntimeController, Env}
use opad.Daemon.Step.{quiet}
use opad.Daemon.Attempts.{
  publish_tap_attempt, publish_tap_history, finish_tap_attempt, start_tap_attempt, watch_replay,
  take_presses, undecided_presses, tosu_presses, pad_presses, results_animation,
}
use opad.Daemon.Tosu.{
  follow_attempt, is_new_attempt, hear_clock, enter_playing, open_attempt, leave_playing,
  rest_frame, hear_frame, tosu_keys, hear_press_times, drop_values, lose_tosu, hear_connection,
  tell_connection, osu_active_changed, play_frame, take_frame, tosu_telemetry,
  tosu_connection_changed,
}
use opad.Daemon.Steady.{Steady, Heeds, &>-Heeds, branches}
use opad.Prelude.{ℕ, Bool, Option, String, List, arith}

module _ (fl : Float) (m : RuntimeController fl) where
  pub finish_tap_attempt-Steady : (env : Env) → Steady m (quiet (finish_tap_attempt fl env m))
  unfolding finish_tap_attempt
  finish_tap_attempt-Steady env = ground arith

  pub finish_tap_attempt-Heeds : (env : Env) → Heeds m (quiet (finish_tap_attempt fl env m))
  unfolding finish_tap_attempt may_touch_pad pad_guard
  finish_tap_attempt-Heeds env = ground arith

  pub tosu_presses-Steady : (d1 d2 at : ℕ) → Steady m (quiet (tosu_presses fl m d1 d2 at))
  unfolding tosu_presses take_presses undecided_presses publish_tap_attempt
  tosu_presses-Steady d1 d2 at = ground arith

  pub tosu_presses-Heeds : (d1 d2 at : ℕ) → Heeds m (quiet (tosu_presses fl m d1 d2 at))
  unfolding tosu_presses take_presses undecided_presses publish_tap_attempt may_touch_pad pad_guard
  tosu_presses-Heeds d1 d2 at = ground arith

  pub tosu_keys-Steady : (keys : KeyCounts) → Steady m (quiet (tosu_keys fl m keys))
  unfolding tosu_keys tosu_presses take_presses undecided_presses publish_tap_attempt
  tosu_keys-Steady keys = ground arith

  pub tosu_keys-Heeds : (keys : KeyCounts) → Heeds m (quiet (tosu_keys fl m keys))
  unfolding tosu_keys tosu_presses take_presses undecided_presses publish_tap_attempt may_touch_pad
      pad_guard
  tosu_keys-Heeds keys = ground arith

  pub pad_presses-Steady :
      (now_us : ℕ) (batch : List (ℕ × ℕ)) (received : ℕ)
      → Steady m (quiet (pad_presses fl m now_us batch received))
  unfolding pad_presses publish_tap_attempt
  pad_presses-Steady now_us batch received = ground arith

  pub pad_presses-Heeds :
      (now_us : ℕ) (batch : List (ℕ × ℕ)) (received : ℕ)
      → Heeds m (quiet (pad_presses fl m now_us batch received))
  unfolding pad_presses publish_tap_attempt may_touch_pad pad_guard
  pad_presses-Heeds now_us batch received = ground arith

  pub hear_press_times-Steady : (on : Bool) → Steady m (quiet (hear_press_times fl m on))
  unfolding hear_press_times
  hear_press_times-Steady on = ground arith

  pub hear_press_times-Heeds : (on : Bool) → Heeds m (quiet (hear_press_times fl m on))
  unfolding hear_press_times may_touch_pad pad_guard
  hear_press_times-Heeds on = ground arith

  pub osu_active_changed-Steady :
      (active : Bool) (now : ℕ) → Steady m (osu_active_changed fl m active now)
  unfolding osu_active_changed
  osu_active_changed-Steady active now = ground arith

  pub osu_active_changed-Heeds :
      (active : Bool) (now : ℕ) → Heeds m (osu_active_changed fl m active now)
  unfolding osu_active_changed may_touch_pad pad_guard
  osu_active_changed-Heeds active now = ground arith

  pub results_animation-Steady :
      (playing failed other_player : Bool) (grade : Option String)
      → Steady m (results_animation fl m playing failed other_player grade)
  unfolding results_animation
  results_animation-Steady playing failed other_player grade = ground arith

  pub results_animation-Heeds :
      (playing failed other_player : Bool) (grade : Option String)
      → Heeds m (results_animation fl m playing failed other_player grade)
  unfolding results_animation may_touch_pad pad_guard
  results_animation-Heeds playing failed other_player grade = ground arith

  pub hear_frame-Steady : (frame : TosuFrame fl) → Steady m (quiet (hear_frame fl m frame))
  unfolding hear_frame
  hear_frame-Steady frame = ground arith

  pub hear_frame-Heeds : (frame : TosuFrame fl) → Heeds m (quiet (hear_frame fl m frame))
  unfolding hear_frame may_touch_pad pad_guard
  hear_frame-Heeds frame = ground arith

  pub follow_attempt-Steady :
      (env : Env) (frame : TosuFrame fl) (now : ℕ)
      → Steady m (quiet (follow_attempt fl env m frame now))
  unfolding follow_attempt start_tap_attempt finish_tap_attempt publish_tap_attempt
  follow_attempt-Steady env frame now = ground arith

  pub follow_attempt-Heeds :
      (env : Env) (frame : TosuFrame fl) (now : ℕ)
      → Heeds m (quiet (follow_attempt fl env m frame now))
  unfolding follow_attempt start_tap_attempt finish_tap_attempt publish_tap_attempt may_touch_pad
      pad_guard
  follow_attempt-Heeds env frame now = ground arith

  pub hear_clock-Steady :
      (frame : TosuFrame fl) (now : ℕ) → Steady m (quiet (hear_clock fl m frame now))
  unfolding hear_clock watch_replay publish_tap_attempt
  hear_clock-Steady frame now = ground arith

  pub hear_clock-Heeds :
      (frame : TosuFrame fl) (now : ℕ) → Heeds m (quiet (hear_clock fl m frame now))
  unfolding hear_clock watch_replay publish_tap_attempt may_touch_pad pad_guard
  hear_clock-Heeds frame now = ground arith

  pub enter_playing-Heeds : Heeds m (enter_playing fl m)
  unfolding enter_playing may_touch_pad pad_guard
  enter_playing-Heeds = ground arith

  pub open_attempt-Steady :
      (env : Env) (new_attempt : Bool) (now : ℕ) → Steady m (open_attempt fl env m new_attempt now)
  unfolding open_attempt
  open_attempt-Steady env new_attempt now = ground arith

  pub open_attempt-Heeds :
      (env : Env) (new_attempt : Bool) (now : ℕ) → Heeds m (open_attempt fl env m new_attempt now)
  unfolding open_attempt may_touch_pad pad_guard
  open_attempt-Heeds env new_attempt now = ground arith

  pub rest_frame-Heeds : (env : Env) (now : ℕ) → Heeds m (rest_frame fl env m now)
  unfolding rest_frame leave_playing finish_tap_attempt may_touch_pad pad_guard
  rest_frame-Heeds env now = ground arith

  pub hear_connection-Heeds :
      (env : Env) (connected : Bool) (now : ℕ) → Heeds m (hear_connection fl env m connected now)
  unfolding hear_connection lose_tosu drop_values publish_tap_history finish_tap_attempt
      may_touch_pad pad_guard
  hear_connection-Heeds env connected now = ground arith

  pub tell_connection-Steady :
      (connected : Bool) (now : ℕ) → Steady m (tell_connection fl m connected now)
  unfolding tell_connection
  tell_connection-Steady connected now = ground arith

  pub tell_connection-Heeds :
      (connected : Bool) (now : ℕ) → Heeds m (tell_connection fl m connected now)
  unfolding tell_connection may_touch_pad pad_guard
  tell_connection-Heeds connected now = ground arith

module _ (fl : Float) (env : Env) (m : RuntimeController fl) (frame : TosuFrame fl) (now : ℕ) where
  pub play_frame-Heeds : Heeds m (play_frame fl env m frame now)
  unfolding play_frame
  play_frame-Heeds =
      &>-Heeds
        (&>-Heeds
          (&>-Heeds (follow_attempt-Heeds fl m env frame now)
            (λ n. hear_clock-Heeds fl n frame now))
          (λ n. enter_playing-Heeds fl n))
        (λ n. open_attempt-Heeds fl n env (is_new_attempt fl m frame) now)

  pub take_frame-Heeds : Heeds m (take_frame fl env m frame now)
  unfolding take_frame
  take_frame-Heeds =
      branches (Heeds m) frame.is_playing play_frame-Heeds (rest_frame-Heeds fl m env now)

module _ (fl : Float) (env : Env) (m : RuntimeController fl) (now : ℕ) where
  pub tosu_telemetry-Heeds : (frame : TosuFrame fl) → Heeds m (tosu_telemetry fl env m frame now)
  unfolding tosu_telemetry
  tosu_telemetry-Heeds frame =
      &>-Heeds (&>-Heeds (hear_frame-Heeds fl m frame) (λ n. take_frame-Heeds fl env n frame now))
        (λ n.
          results_animation-Heeds fl n frame.is_playing frame.failed frame.other_player
            frame.results_grade)

  pub tosu_connection_changed-Heeds :
      (connected : Bool) → Heeds m (tosu_connection_changed fl env m connected now)
  unfolding tosu_connection_changed
  tosu_connection_changed-Heeds connected =
      &>-Heeds (hear_connection-Heeds fl m env connected now)
        (λ n. tell_connection-Heeds fl n connected now)
