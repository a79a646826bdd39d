-- ===== src/Daemon/Writes/Pieces.antt =====
-- The handlers of desktop/daemon/src/runtime.rs, as they move the mode and the flag.
use opad.Tap.Float.{Float}
use opad.Protocol.{device_protocol_version}
use opad.Model.Config.{DeviceConfig}
use opad.Daemon.State.{DeviceInfo}
use opad.Daemon.Events.{TosuFrame}
use opad.Daemon.Controller.{RuntimeController, Env, ownership_of}
use opad.Daemon.Step.{quiet}
use opad.Model.Counters.{CounterState}
use opad.Daemon.Attempts.{results_animation, finish_tap_attempt, publish_tap_history}
use opad.Daemon.Connect.{welcome, device_connected}
use opad.Daemon.Tosu.{
  enter_playing, open_attempt, take_frame, tell_connection, hear_connection, is_new_attempt,
  follow_attempt, hear_clock, play_frame, rest_frame, leave_playing, tosu_telemetry, lose_tosu,
  drop_values, hear_frame,
}
use opad.Daemon.Tick.{tick_cooldown, sync_completed, hear_sync, settle_sync}
use opad.Daemon.Steady.{Steady, &>-Steady, branches}
use opad.Daemon.Steady.Pad.{
  leave_alone-Steady, greet-Steady, judge-Steady, register-Steady, announce-Steady,
}
use opad.Daemon.Steady.Play.{
  hear_frame-Steady, follow_attempt-Steady, hear_clock-Steady, open_attempt-Steady,
  results_animation-Steady,
}
use opad.Prelude.{
  ℕ, refl, Option, String, Bool, true, false, ◌||◌, [], arith, is_some, unwrap_or, not, ◌==◌,
}
use opad.Daemon.Writes.{Gated, Silent, set_writes, Steady-Gated, &>-Gated, &>-Silent}

module _ (fl : Float) (m : RuntimeController fl) where
  pub tick_cooldown-Gated : (now : ℕ) → Gated m (tick_cooldown fl m now)
  unfolding set_writes tick_cooldown
  tick_cooldown-Gated now = ground arith

  pub rest_frame-Gated : (env : Env) (now : ℕ) → Gated m (rest_frame fl env m now)
  unfolding set_writes rest_frame leave_playing finish_tap_attempt
  rest_frame-Gated env now = ground arith

  pub lose_tosu-Gated : (env : Env) (now : ℕ) → Gated m (lose_tosu fl env m now)
  unfolding set_writes lose_tosu drop_values publish_tap_history finish_tap_attempt
  lose_tosu-Gated env now = ground arith

  pub sync_completed-Gated :
      (success : Bool) (counters : CounterState) (time_str error : Option String) (now : ℕ)
      → Gated m (sync_completed fl m success counters time_str error now)
  unfolding set_writes sync_completed hear_sync settle_sync
  sync_completed-Gated success counters time_str error now = ground arith

  pub enter_playing-Gated : Gated m (enter_playing fl m)
  unfolding set_writes enter_playing
  enter_playing-Gated = ground arith

  pub enter_playing-Silent : Silent (enter_playing fl m)
  unfolding enter_playing
  enter_playing-Silent = ground arith

  pub rest_frame-Silent : (env : Env) (now : ℕ) → Silent (rest_frame fl env m now)
  unfolding rest_frame leave_playing
  rest_frame-Silent env now = ground arith

  pub lose_tosu-Silent : (env : Env) (now : ℕ) → Silent (lose_tosu fl env m now)
  unfolding lose_tosu
  lose_tosu-Silent env now = ground arith

  pub tick_cooldown-Silent : (now : ℕ) → Silent (tick_cooldown fl m now)
  unfolding tick_cooldown
  tick_cooldown-Silent now = ground arith

  pub sync_completed-Silent :
      (success : Bool) (counters : CounterState) (time_str error : Option String) (now : ℕ)
      → Silent (sync_completed fl m success counters time_str error now)
  unfolding sync_completed settle_sync
  sync_completed-Silent success counters time_str error now = ground arith

  pub open_attempt-Silent :
      (env : Env) (new_attempt : Bool) (now : ℕ) → Silent (open_attempt fl env m new_attempt now)
  unfolding open_attempt
  open_attempt-Silent env new_attempt now = ground arith

  pub results_animation-Silent :
      (on failed other_player : Bool) (grade : Option String)
      → Silent (results_animation fl m on failed other_player grade)
  unfolding results_animation
  results_animation-Silent on failed other_player grade = ground arith

  pub tell_connection-Silent :
      (connected : Bool) (now : ℕ) → Silent (tell_connection fl m connected now)
  unfolding tell_connection
  tell_connection-Silent connected now = ground arith

  pub hear_frame-Silent : (frame : TosuFrame fl) → Silent (quiet (hear_frame fl m frame))
  unfolding hear_frame
  hear_frame-Silent frame = ground arith

  pub quiet-Silent : Silent (quiet m)
  quiet-Silent = record { none_of = refl }

module _ (fl : Float) (env : Env) where
  pub play_frame-Gated :
      (m : RuntimeController fl) (frame : TosuFrame fl) (now : ℕ)
      → Gated m (play_frame fl env m frame now)
  unfolding play_frame
  play_frame-Gated m frame now =
      &>-Gated
        (&>-Gated
          (&>-Gated (Steady-Gated (follow_attempt-Steady fl m env frame now))
            (λ n. Steady-Gated (hear_clock-Steady fl n frame now)))
          (λ n. enter_playing-Gated fl n))
        (λ n. Steady-Gated (open_attempt-Steady fl n env (is_new_attempt fl m frame) now))

  pub take_frame-Gated :
      (m : RuntimeController fl) (frame : TosuFrame fl) (now : ℕ)
      → Gated m (take_frame fl env m frame now)
  unfolding take_frame
  take_frame-Gated m frame now =
      branches (Gated m) frame.is_playing (play_frame-Gated m frame now)
        (rest_frame-Gated fl m env now)

  pub tosu_telemetry-Gated :
      (m : RuntimeController fl) (frame : TosuFrame fl) (now : ℕ)
      → Gated m (tosu_telemetry fl env m frame now)
  unfolding tosu_telemetry
  tosu_telemetry-Gated m frame now =
      &>-Gated
        (&>-Gated (Steady-Gated (hear_frame-Steady fl m frame)) (λ n. take_frame-Gated n frame now))
        (λ n. Steady-Gated (
          results_animation-Steady fl n frame.is_playing frame.failed frame.other_player
            frame.results_grade))

  pub play_frame-Silent :
      (m : RuntimeController fl) (frame : TosuFrame fl) (now : ℕ)
      → Silent (play_frame fl env m frame now)
  unfolding play_frame
  play_frame-Silent m frame now =
      &>-Silent
        (&>-Silent
          (&>-Silent (quiet-Silent fl (follow_attempt fl env m frame now))
            (λ n. quiet-Silent fl (hear_clock fl n frame now)))
          (λ n. enter_playing-Silent fl n))
        (λ n. open_attempt-Silent fl n env (is_new_attempt fl m frame) now)

  pub tosu_telemetry-Silent :
      (m : RuntimeController fl) (frame : TosuFrame fl) (now : ℕ)
      → Silent (tosu_telemetry fl env m frame now)
  unfolding tosu_telemetry take_frame
  tosu_telemetry-Silent m frame now =
      &>-Silent
        (&>-Silent (quiet-Silent fl (hear_frame fl m frame)) (λ n.
          branches Silent frame.is_playing (play_frame-Silent n frame now)
            (rest_frame-Silent fl n env now)))
        (λ n.
          results_animation-Silent fl n frame.is_playing frame.failed frame.other_player
            frame.results_grade)

  pub hear_connection-Gated :
      (m : RuntimeController fl) (connected : Bool) (now : ℕ)
      → Gated m (hear_connection fl env m connected now)
  unfolding hear_connection set_writes
  hear_connection-Gated m true now = record { gate = refl }
  hear_connection-Gated m false now = lose_tosu-Gated fl m env now

  pub hear_connection-Silent :
      (m : RuntimeController fl) (connected : Bool) (now : ℕ)
      → Silent (hear_connection fl env m connected now)
  unfolding hear_connection
  hear_connection-Silent m true now = record { none_of = refl }
  hear_connection-Silent m false now = lose_tosu-Silent fl m env now

  pub welcome-Steady :
      (m : RuntimeController fl) (info : DeviceInfo) (cfg : Option DeviceConfig) (now : ℕ)
      → Steady m (welcome fl env m info cfg now)
  unfolding welcome
  welcome-Steady m info cfg now =
      &>-Steady
        (&>-Steady
          (&>-Steady (greet-Steady fl m info cfg) (λ n.
            judge-Steady fl n info
              (ownership_of env n.state.install_id (unwrap_or n.reported_owner []))))
          (λ n. register-Steady fl n env info))
        (λ n. announce-Steady fl n now (not (is_some cfg) || n.state.nvs_restore_pending))

  pub device_connected-Steady :
      (m : RuntimeController fl) (info : DeviceInfo) (cfg : Option DeviceConfig) (now : ℕ)
      → Steady m (device_connected fl env m info cfg now)
  unfolding device_connected
  device_connected-Steady m info cfg now =
      branches (Steady m) (info.protocol_version == device_protocol_version)
        (welcome-Steady m info cfg now) (leave_alone-Steady fl m info)
