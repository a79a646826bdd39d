-- ===== src/Service/Requests/Commands.antt =====
-- The requests that send the pad one command: its statistics, its tests, an animation, a restart and
-- the Hall Effect calibration (desktop/daemon/src/ipc_handlers.rs).
use opad.Tap.Float.{Float}
use opad.Daemon.State.{is_idle, is_playing}
use opad.Service.Link.{
  PadCall, Shared, Outside, reset_latency_stats, run_board_test, restart_pad, start_he_calibration,
  cancel_he_calibration, detect_pin, play_animation, send_number,
}
use opad.Service.Requests.{
  IpcResponse, Handled, returns_if, first_return, unless, refuse_if_pad_guarded, error,
  handshake_ack, board_test, pin_detected, animation_played, pad_restarting, he_calibration_started,
  he_calibration_cancelled, easter_egg_triggered,
}
use opad.Prelude.{
  ℕ, Bool, false, not, Option, none, some, [], ◌∷◌, String, ◌==◌, Result, ok, err, if◌then◌else◌,
}

-- The response to a command that was sent, or not.
abbrev pub answer : Result String Unit → IpcResponse → IpcResponse → IpcResponse
answer (ok u) done failed = done
answer (err e) done failed = failed

abbrev pub board_response : Option String → IpcResponse
board_response none = error "The pad did not answer the board test"
board_response (some report) = board_test report

abbrev pub pin_response : ℕ → Option (ℕ × Bool) → IpcResponse
pin_response key_id none = pin_detected key_id 0 false
pin_response key_id (some (gpio, success)) = pin_detected key_id gpio success

module _ (fl : Float) where
  -- A command, and the state after it was sent.
  abbrev pub commanded : Outside fl → Shared fl → PadCall → IpcResponse → IpcResponse → Handled fl
  commanded out sh call done failed = (out.meanwhile 0 sh, call ∷ [], answer out.sent done failed)

  abbrev pub without_latency : Result String Unit → Shared fl → Shared fl
  without_latency (ok u) sh = record sh { state = record (sh.state) { latency = none } }
  without_latency (err e) sh = sh

  unfoldable pub reset_latency : Outside fl → Shared fl → Handled fl
  reset_latency out sh = (
    without_latency out.sent (out.meanwhile 0 sh),
    reset_latency_stats ∷ [],
    answer out.sent (handshake_ack (out.meanwhile 0 sh).state.device_connected)
        (error "Failed to reset latency stats"),
  )

  unfoldable pub test_board : Outside fl → Shared fl → Handled fl
  test_board out sh =
      unless fl
        (first_return (
          returns_if (not out.is_connected) (error "The pad is not connected")
          ∷ returns_if (not out.supports_board_test) (error "This pad's firmware has no board test")
          ∷ []))
        sh
        (commanded out sh run_board_test (board_response out.board_report)
          (error "Could not ask the pad for a board test"))

  unfoldable pub find_pin :
      Outside fl → Shared fl → (key_id timeout_ms exclude_gpio : ℕ) → Handled fl
  find_pin out sh key_id timeout_ms exclude_gpio =
      unless fl (returns_if (not out.is_connected) (error "Device is not connected")) sh (
        commanded out sh
          (detect_pin key_id (if timeout_ms == 0 then 10000 else timeout_ms) exclude_gpio)
          (pin_response key_id out.pin_reply) (pin_detected key_id 0 false))

  unfoldable pub show_animation : Outside fl → Shared fl → ℕ → String → Handled fl
  unfolding refuse_if_pad_guarded
  show_animation out sh animation grade =
      unless fl
        (first_return (
          refuse_if_pad_guarded fl sh.state
          ∷ returns_if (not out.is_connected) (error "The pad is not connected")
          ∷ returns_if (out.builtin_animations == 0)
              (error "This pad's firmware has no result animations")
          ∷ returns_if (is_playing sh.state.mode) (error "Not while a map is played")
          ∷ []))
        sh
        (commanded out sh (play_animation animation grade) animation_played
          (error "Could not reach the pad"))

  unfoldable pub restart : Outside fl → Shared fl → Handled fl
  unfolding refuse_if_pad_guarded
  restart out sh =
      unless fl
        (first_return (
          refuse_if_pad_guarded fl sh.state
          ∷ returns_if (not out.is_connected) (error "The pad is not connected")
          ∷ returns_if (not out.supports_restart) (error "This pad's firmware cannot restart")
          ∷ returns_if (is_playing sh.state.mode) (error "Not while a map is played")
          ∷ []))
        sh (commanded out sh restart_pad pad_restarting (error "Could not reach the pad"))

  abbrev pub without_progress : Shared fl → Shared fl
  without_progress sh = record sh { state = record (sh.state) { latest_he_progress = none } }

  unfoldable pub start_calibration : Outside fl → Shared fl → Handled fl
  unfolding refuse_if_pad_guarded
  start_calibration out sh =
      unless fl
        (first_return (
          refuse_if_pad_guarded fl sh.state
          ∷ returns_if (not out.is_connected) (error "The pad is not connected")
          ∷ returns_if (not out.supports_he_calibration)
              (error "This pad does not support Hall Effect calibration.")
          ∷ returns_if (not (is_idle sh.state.mode)) (error "Calibration is only allowed in IDLE")
          ∷ []))
        sh
        (commanded out (without_progress sh) start_he_calibration he_calibration_started
          (error "Could not start calibration"))

  unfoldable pub cancel_calibration : Outside fl → Shared fl → Handled fl
  unfolding refuse_if_pad_guarded
  cancel_calibration out sh =
      unless fl
        (first_return (
          refuse_if_pad_guarded fl sh.state
          ∷ returns_if (not out.is_connected) (error "The pad is not connected")
          ∷ returns_if (not out.supports_he_calibration)
              (error "This pad does not support Hall Effect calibration.")
          ∷ []))
        sh
        (commanded out sh cancel_he_calibration he_calibration_cancelled
          (error "Could not cancel calibration"))

  -- Whether it was sent or not.
  unfoldable pub trigger_easter_egg : Outside fl → Shared fl → Handled fl
  trigger_easter_egg out sh =
      commanded out sh (send_number 67 67) easter_egg_triggered easter_egg_triggered
