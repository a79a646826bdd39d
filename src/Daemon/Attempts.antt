-- ===== src/Daemon/Attempts.antt =====
-- The attempt being played, as the controller keeps it (desktop/daemon/src/runtime.rs,
-- `RuntimeController`'s helpers).
use opad.Tap.Float.{Float}
use opad.Tap.Attempt.{AttemptStats, AttemptTracker, BeatmapRef, is_recordable}
use opad.Tap.Attempt
use opad.Tap.Values.{TapHistory, ChannelHistory, attempt_ui_values, history_ui_values}
use opad.Model.Animations.{Trigger, get_animation, from_grade}
use opad.Daemon.Telemetry.{ingest}
use opad.Daemon.State.{TapStatsSnapshot, is_playing}
use opad.Daemon.Events.{RuntimeAction, play_animation}
use opad.Daemon.Controller.{RuntimeController, Env, PressSource, undecided, pad, tosu, is_tosu}
use opad.Prelude.{
  ℕ, ◌+◌, ◌-◌, ◌*◌, ◌%◌, ◌^◌, min, Bool, true, false, not, ◌&&◌, ◌||◌, Option, none, some, List, [],
  ◌∷◌, ◌++◌, String, ltb, ◌==◌, if◌then◌else◌, is_some, length, drop,
}

abbrev pub max_unsaved_attempts : ℕ
max_unsaved_attempts = 500

abbrev pub tosu_only_presses : ℕ
tosu_only_presses = 8

-- `if cond { actions.push(action) }`
abbrev pub emit {ℓ} : {A : Type ℓ} → Bool → A → List A
emit true action = action ∷ []
emit false action = []

-- `iter().map(|(a, b, _)| a + b).sum::<u32>()`
unfoldable pub pending_presses : List (ℕ × ℕ × ℕ) → ℕ
pending_presses [] = 0
pending_presses ((k1, k2, at) ∷ rest) = (k1 + k2 + pending_presses rest) % 2 ^ 32

-- `drain(..excess)` of what is over the limit: the oldest go.
unfoldable pub cap_unsaved {ℓ} : {A : Type ℓ} → List A → List A
cap_unsaved attempts = drop (length attempts - max_unsaved_attempts) attempts

module _ (fl : Float) where
  open fl use {F}

  -- `Option<f64>`'s and `TapHistory`'s `==`
  pub same_rate : Option F → Option F → Bool
  same_rate none none = true
  same_rate (some a) (some b) = fl.eq a b
  same_rate _ _ = false

  pub same_channel : ChannelHistory fl → ChannelHistory fl → Bool
  same_channel g h =
      same_rate g.average_ppm h.average_ppm
      && (same_rate g.average_peak_ppm h.average_peak_ppm
          && (same_rate g.best_peak_ppm h.best_peak_ppm && g.total_presses == h.total_presses))

  pub same_history : Option (TapHistory fl) → Option (TapHistory fl) → Bool
  unfolding same_rate same_channel
  same_history none none = true
  same_history (some g) (some h) =
      g.period_days == h.period_days
      && (g.attempts == h.attempts
          && (same_channel g.k1 h.k1
              && (same_channel g.k2 h.k2
                  && (same_channel g.combined h.combined
                      && (same_rate g.song_ppm h.song_ppm
                          && same_rate g.best_song_peak_ppm h.best_song_peak_ppm)))))
  same_history _ _ = false

  abbrev with_snapshot : RuntimeController fl → TapStatsSnapshot fl → RuntimeController fl
  with_snapshot m snapshot = record m {
    state = record (m.state) { tap = record (m.state.tap) { snapshot = snapshot } };
  }

  abbrev pub map_snapshot : Option (AttemptTracker fl) → Option (AttemptStats fl)
  map_snapshot none = none
  map_snapshot (some tracker) = some (Attempt.snapshot fl tracker)

  unfoldable pub publish_tap_attempt : RuntimeController fl → RuntimeController fl
  publish_tap_attempt m =
      let snapshot = map_snapshot m.tap_attempt in
      let m' : RuntimeController fl = record m {
        data_sync = ingest fl m.data_sync (attempt_ui_values fl snapshot);
      } in
      with_snapshot m' (record (m.state.tap.snapshot) { current = snapshot })

  unfoldable pub publish_tap_history : RuntimeController fl → Bool → RuntimeController fl
  unfolding same_history
  publish_tap_history m force =
      let history = m.state.tap.snapshot.history in
      if force || not (same_history history m.tap_published_history)
      then record m {
        data_sync = ingest fl m.data_sync (history_ui_values fl history);
        tap_published_history = history;
      }
      else m

  -- The queue of a finished attempt.
  abbrev pub queue_attempt : AttemptStats fl → List (AttemptStats fl) → List (AttemptStats fl)
  queue_attempt stats unsaved =
      if is_recordable fl stats then cap_unsaved (unsaved ++ stats ∷ []) else unsaved

  abbrev finish_with : RuntimeController fl → AttemptStats fl → RuntimeController fl
  finish_with m stats =
      let unsaved = queue_attempt stats m.tap_unsaved in
      let m' : RuntimeController fl = record m {
        tap_attempt = none;
        data_sync = ingest fl m.data_sync (attempt_ui_values fl (some stats));
        tap_unsaved = unsaved;
      } in
      with_snapshot m' (record (m.state.tap.snapshot) {
        current = none;
        last = some stats;
        unsaved_attempts = length unsaved;
      })

  abbrev finish_tracker :
      Env → RuntimeController fl → Option (AttemptTracker fl) → RuntimeController fl
  finish_tracker env m none = m
  finish_tracker env m (some tracker) = finish_with m (Attempt.finish fl tracker env.utc)

  unfoldable pub finish_tap_attempt : Env → RuntimeController fl → RuntimeController fl
  finish_tap_attempt env m = finish_tracker env m m.tap_attempt

  unfoldable pub start_tap_attempt :
      Env → RuntimeController fl → BeatmapRef → ℕ → RuntimeController fl
  start_tap_attempt env m beatmap now =
      let m' = finish_tap_attempt env m in
      publish_tap_attempt (record m' {
        press_source = undecided;
        tosu_pending = [];
        tap_attempt = some (Attempt.new fl beatmap now env.utc);
      })

  unfoldable pub requeue_tap_attempts :
      RuntimeController fl → List (AttemptStats fl) → RuntimeController fl
  requeue_tap_attempts m attempts = record m {
    tap_unsaved = cap_unsaved (attempts ++ m.tap_unsaved);
  }

  unfoldable pub pad_times_presses : RuntimeController fl → Bool
  pad_times_presses m = m.pad_press_times && (m.state.device_connected && not m.state.foreign_pad)

  -- `for (d1, d2, at) in tosu_pending { tracker.presses(d1, d2, at); }`
  unfoldable pub feed : AttemptTracker fl → List (ℕ × ℕ × ℕ) → AttemptTracker fl
  feed tracker [] = tracker
  feed tracker ((d1, d2, at) ∷ rest) = feed (Attempt.presses fl tracker d1 d2 at) rest

  abbrev watch_tracker : RuntimeController fl → Option (AttemptTracker fl) → RuntimeController fl
  watch_tracker m none = m
  watch_tracker m (some tracker) =
      let marked = Attempt.mark_replay fl tracker in
      if tracker.replay
      then m
      else publish_tap_attempt (
          if is_tosu m.press_source then record m { tap_attempt = some marked } else record m {
            press_source = tosu;
            tosu_pending = [];
            tap_attempt = some (feed (Attempt.coarse_timing fl marked) m.tosu_pending);
          })

  unfoldable pub watch_replay : RuntimeController fl → RuntimeController fl
  watch_replay m = watch_tracker m m.tap_attempt

  abbrev map_tracker :
      (AttemptTracker fl → AttemptTracker fl)
      → Option (AttemptTracker fl)
      → Option (AttemptTracker fl)
  map_tracker f none = none
  map_tracker f (some tracker) = some (f tracker)

  -- The end of `tosu_presses`: the attempt takes the presses, if there is one.
  unfoldable pub take_presses : RuntimeController fl → ℕ → ℕ → ℕ → RuntimeController fl
  take_presses m d1 d2 at =
      if is_some m.tap_attempt
      then publish_tap_attempt (record m {
        tap_attempt = map_tracker (λ t. Attempt.presses fl t d1 d2 at) m.tap_attempt;
      })
      else m

  -- What an undecided attempt does with presses that the pad did not report.
  unfoldable pub undecided_presses : RuntimeController fl → ℕ → ℕ → ℕ → RuntimeController fl
  undecided_presses m d1 d2 at =
      let waiting = m.tosu_pending ++ (d1, d2, at) ∷ [] in
      if ltb (pending_presses waiting) tosu_only_presses
      then record m { tosu_pending = waiting }
      else publish_tap_attempt (record m {
        press_source = tosu;
        tosu_pending = if is_some m.tap_attempt then [] else waiting;
        tap_attempt =
            map_tracker (λ t. feed (Attempt.mark_replay fl (Attempt.coarse_timing fl t)) waiting)
              m.tap_attempt;
      })

  abbrev presses_from : PressSource → RuntimeController fl → ℕ → ℕ → ℕ → RuntimeController fl
  presses_from pad m d1 d2 at = m
  presses_from tosu m d1 d2 at = take_presses m d1 d2 at
  presses_from undecided m d1 d2 at =
      if pad_times_presses m
      then undecided_presses m d1 d2 at
      else take_presses
          (record m {
            press_source = tosu;
            tap_attempt = map_tracker (Attempt.coarse_timing fl) m.tap_attempt;
          })
          d1 d2 at

  unfoldable pub tosu_presses : RuntimeController fl → ℕ → ℕ → ℕ → RuntimeController fl
  tosu_presses m d1 d2 at = presses_from m.press_source m d1 d2 at

  -- The presses of a batch from `origin` on, and whether there was one.
  unfoldable pub feed_pad :
      AttemptTracker fl → ℕ → ℕ → List (ℕ × ℕ) → Bool → AttemptTracker fl × Bool
  feed_pad tracker origin epoch [] fed = (tracker, fed)
  feed_pad tracker origin epoch ((key, t_us) ∷ rest) fed =
      let at = epoch + t_us * 1000 in
      let k1 = if key == 1 then 1 else 0 in
      let fed_rest = feed_pad (Attempt.presses fl tracker k1 (1 - k1) at) origin epoch rest true in
      let late = feed_pad tracker origin epoch rest fed in if ltb at origin then late else fed_rest

  abbrev min_epoch : Option ℕ → ℕ → ℕ
  min_epoch none z = z
  min_epoch (some epoch) z = min epoch z

  abbrev fed_by_pad :
      RuntimeController fl → Option (AttemptTracker fl) → ℕ → List (ℕ × ℕ) → RuntimeController fl
  fed_by_pad m none epoch batch = m
  fed_by_pad m (some tracker) epoch batch =
      let (tracker', fed) = feed_pad tracker tracker.origin epoch batch false in
      if fed
      then publish_tap_attempt
          (record m { tap_attempt = some tracker'; press_source = pad; tosu_pending = [] })
      else m

  unfoldable pub pad_presses : RuntimeController fl → ℕ → List (ℕ × ℕ) → ℕ → RuntimeController fl
  pad_presses m now_us batch received =
      let epoch = min_epoch m.pad_epoch (received - now_us * 1000) in
      let m' : RuntimeController fl = record m { pad_epoch = some epoch } in
      if ltb received (now_us * 1000)
      then m
      else (if not (is_playing m.state.mode) || is_tosu m.press_source
          then m'
          else fed_by_pad m' m.tap_attempt epoch batch)

  abbrev grade_animation : RuntimeController fl → String → Option Trigger → List (RuntimeAction fl)
  grade_animation m grade none = []
  grade_animation m grade (some trigger) =
      let animation = get_animation m.state.config.result_animations trigger in
      emit (not (animation == 0) && (m.state.device_connected && not m.state.foreign_pad))
        (play_animation animation grade)

  abbrev on_results :
      RuntimeController fl → Option String → RuntimeController fl × List (RuntimeAction fl)
  on_results m none = (record m { results_armed = false; on_results_screen = false }, [])
  on_results m (some grade) = if m.on_results_screen then (m, []) else (
    record m { results_armed = false; on_results_screen = true },
    if m.results_armed then grade_animation m grade (from_grade grade) else [],
  )

  unfoldable pub results_animation :
      RuntimeController fl
      → (playing failed other_player : Bool) → Option String
      → RuntimeController fl × List (RuntimeAction fl)
  results_animation m playing failed other_player results_grade =
      if playing
      then (
        record m { results_armed = not other_player && not failed; on_results_screen = false },
        [],
      )
      else on_results m results_grade
