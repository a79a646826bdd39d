-- ===== src/Daemon/Tosu.antt =====
-- What tosu and the desktop report (desktop/daemon/src/runtime.rs, `on_event` on the `Tosu*` events,
-- the pad's presses and `OsuActiveChanged`).
use opad.Tap.Float.{Float}
use opad.Tap.Attempt.{AttemptTracker, BeatmapRef, SongClock}
use opad.Tap.Attempt
use opad.Tap.Values.{attempt_ui_values}
use opad.Daemon.Telemetry.{ingest, take_changes, clear_sync}
use opad.Daemon.State.{is_playing, playing, cooldown}
use opad.Daemon.Events.{
  TosuFrame, KeyCounts, send_host_status, send_data_update, set_storage_writes_allowed,
}
use opad.Daemon.Controller.{RuntimeController, Env, second}
use opad.Daemon.Step.{Step, ◌&>◌, ask, quiet}
use opad.Daemon.Attempts.{
  emit, results_animation, watch_replay, tosu_presses, start_tap_attempt, finish_tap_attempt,
  publish_tap_history,
}
use opad.Prelude.{
  ℕ, ◌+◌, ◌-◌, ◌*◌, ◌%◌, ◌^◌, Bool, true, false, not, ◌&&◌, ◌||◌, Option, none, some, List, [], ◌∷◌,
  leb, ltb, if◌then◌else◌, is_some,
}

abbrev pub cooldown_duration : ℕ
cooldown_duration = 5 * second

-- osu! restarts its counters with every play.
unfoldable pub key_delta : ℕ → ℕ → ℕ
key_delta new old = if leb old new then new - old else new

module _ (fl : Float) where
  open fl use {F, lit, sub, lt}

  abbrev is_nil : {A : Type 0} → List A → Bool
  is_nil [] = true
  is_nil (x ∷ xs) = false

  -- The song went back by more than two seconds.
  unfoldable pub is_rewound : Option F → F → Bool
  is_rewound none live = false
  is_rewound (some prev) live = lt live (sub prev (lit 2000))

  abbrev pub is_new_attempt : RuntimeController fl → TosuFrame fl → Bool
  unfolding is_rewound
  is_new_attempt m frame =
      not (is_playing m.state.mode) || is_rewound m.last_live_ms frame.live_time_ms

  abbrev with_beatmap : BeatmapRef → Option (AttemptTracker fl) → Option (AttemptTracker fl)
  with_beatmap beatmap none = none
  with_beatmap beatmap (some tracker) = some (Attempt.update_beatmap fl tracker beatmap)

  -- The attempt that the frame belongs to.
  unfoldable pub follow_attempt :
      Env → RuntimeController fl → TosuFrame fl → ℕ → RuntimeController fl
  follow_attempt env m frame now =
      let m' : RuntimeController fl = record m { last_live_ms = some frame.live_time_ms } in
      if is_new_attempt m frame
      then start_tap_attempt fl env
          (record m' { play_id = (m.play_id + 1) % 2 ^ 32; last_failed = frame.failed })
          frame.beatmap now
      else (if frame.failed && not m.last_failed
          then finish_tap_attempt fl env (record m' { last_failed = true })
          else record m' { tap_attempt = with_beatmap frame.beatmap m.tap_attempt })

  abbrev with_clock :
      Option (AttemptTracker fl) → Option (SongClock fl) → ℕ → Option (AttemptTracker fl)
  with_clock (some tracker) (some clock) now = some (Attempt.song_clock fl tracker clock now)
  with_clock attempt _ now = attempt

  unfoldable pub hear_clock : RuntimeController fl → TosuFrame fl → ℕ → RuntimeController fl
  hear_clock m frame now =
      let m' : RuntimeController fl = record m {
        tap_attempt = with_clock m.tap_attempt frame.clock now;
      } in
      if frame.other_player then watch_replay fl m' else m'

  unfoldable pub enter_playing : RuntimeController fl → Step fl
  enter_playing m =
      if is_playing m.state.mode
      then quiet m
      else ask
          (record m {
            state = record (m.state) { mode = playing };
            cooldown_deadline = none;
            backup_deadline = none;
            backup_after_sync = false;
          })
          (set_storage_writes_allowed false ∷ [])

  unfoldable pub open_attempt : Env → RuntimeController fl → Bool → ℕ → Step fl
  open_attempt env m new_attempt now =
      let taken =
        take_changes fl m.data_sync env.clock true m.state.config.gameplay_display_hz true in
      if new_attempt && m.state.device_connected
      then ask (record m { last_host_status = now; data_sync = taken.0 })
          (send_host_status true true m.play_id m.state.osu_active
            ∷ emit (not (is_nil taken.1) && not m.state.foreign_pad) (send_data_update taken.1))
      else quiet m

  unfoldable pub leave_playing : Env → RuntimeController fl → ℕ → Step fl
  leave_playing env m now =
      let m' = finish_tap_attempt fl env m in
      ask
        (record m' {
          last_live_ms = none;
          state = record (m'.state) { mode = cooldown };
          cooldown_deadline = some (now + cooldown_duration);
        })
        (set_storage_writes_allowed false
          ∷ emit m'.state.device_connected
              (send_host_status true false m'.play_id m'.state.osu_active))

  -- A frame during a play.
  unfoldable pub play_frame : Env → RuntimeController fl → TosuFrame fl → ℕ → Step fl
  play_frame env m frame now =
      let new_attempt = is_new_attempt m frame in
      quiet (follow_attempt env m frame now)
      &> (λ n. quiet (hear_clock n frame now))
      &> (λ n. enter_playing n)
      &> λ n. open_attempt env n new_attempt now

  unfoldable pub rest_frame : Env → RuntimeController fl → ℕ → Step fl
  rest_frame env m now = if is_playing m.state.mode then leave_playing env m now else quiet m

  unfoldable pub hear_frame : RuntimeController fl → TosuFrame fl → RuntimeController fl
  hear_frame m frame = record m {
    data_sync = ingest fl m.data_sync frame.values;
    state = record (m.state) { ui_values = frame.values };
  }

  unfoldable pub take_frame : Env → RuntimeController fl → TosuFrame fl → ℕ → Step fl
  take_frame env m frame now =
      if frame.is_playing then play_frame env m frame now else rest_frame env m now

  unfoldable pub tosu_telemetry : Env → RuntimeController fl → TosuFrame fl → ℕ → Step fl
  tosu_telemetry env m frame now =
      quiet (hear_frame m frame) &> (λ n. take_frame env n frame now) &> λ n.
      results_animation fl n frame.is_playing frame.failed frame.other_player frame.results_grade

  abbrev count_keys : RuntimeController fl → Option (ℕ × ℕ) → KeyCounts → RuntimeController fl
  count_keys m none keys = m
  count_keys m (some (k1, k2)) keys =
      let d1 = key_delta keys.k1 k1 in
      let d2 = key_delta keys.k2 k2 in
      if ltb 0 d1 || ltb 0 d2 then tosu_presses fl m d1 d2 keys.at else m

  unfoldable pub tosu_keys : RuntimeController fl → KeyCounts → RuntimeController fl
  tosu_keys m keys =
      let m' : RuntimeController fl = record m { last_keys = some (keys.k1, keys.k2) } in
      if is_playing m.state.mode && is_some m.tap_attempt
      then count_keys m' m.last_keys keys
      else m'

  unfoldable pub hear_press_times : RuntimeController fl → Bool → RuntimeController fl
  hear_press_times m on = record m { pad_press_times = on; pad_epoch = none }

  unfoldable pub drop_values : RuntimeController fl → RuntimeController fl
  drop_values m =
      publish_tap_history fl
        (record m { data_sync = ingest fl (clear_sync fl m.data_sync) (attempt_ui_values fl none) })
        true

  -- What a lost connection does before the pad hears of it.
  unfoldable pub lose_tosu : Env → RuntimeController fl → ℕ → Step fl
  lose_tosu env m now =
      let m' =
        finish_tap_attempt fl env
          (record m { state = record (m.state) { tosu_connected = false } }) in
      let forgot : RuntimeController fl = record m' { last_keys = none } in
      if is_playing m.state.mode
      then ask
          (drop_values (record forgot {
            state = record (forgot.state) { mode = cooldown };
            cooldown_deadline = some (now + cooldown_duration);
            last_live_ms = none;
          }))
          (set_storage_writes_allowed false ∷ [])
      else quiet (drop_values forgot)

  unfoldable pub hear_connection : Env → RuntimeController fl → Bool → ℕ → Step fl
  hear_connection env m true now =
      quiet (record m { state = record (m.state) { tosu_connected = true } })
  hear_connection env m false now = lose_tosu env m now

  unfoldable pub tell_connection : RuntimeController fl → Bool → ℕ → Step fl
  tell_connection m connected now =
      ask (record m { last_host_status = now })
        (emit m.state.device_connected
          (send_host_status connected false m.play_id m.state.osu_active))

  unfoldable pub tosu_connection_changed : Env → RuntimeController fl → Bool → ℕ → Step fl
  tosu_connection_changed env m connected now =
      hear_connection env m connected now &> λ n. tell_connection n connected now

  unfoldable pub osu_active_changed : RuntimeController fl → Bool → ℕ → Step fl
  osu_active_changed m active now =
      ask
        (record m {
          state = record (m.state) { osu_active = active };
          last_host_status = if m.state.device_connected then now else m.last_host_status;
        })
        (emit m.state.device_connected
          (send_host_status m.state.tosu_connected (is_playing m.state.mode) m.play_id active))
