-- ===== src/Tap/Attempt.antt =====
-- One attempt being played (desktop/crates/opad-model/src/tap_rate.rs, `AttemptTracker`). An
-- `Instant` is a count of nanoseconds; a `DateTime<Utc>` is a number.
use opad.Tap.Float.{Float}
use opad.Tap.Channel
use opad.Tap.Channel.{ChannelTracker, ChannelStats, new_channel, saturating_suc, raise_peak}
use opad.Prelude.Int.{ℤ}
use opad.Prelude.{
  ℕ, zero, suc, ◌+◌, ◌-◌, ◌%◌, ◌^◌, min, Bool, true, false, not, ◌&&◌, ◌||◌, Option, none, some,
  List, [], ◌∷◌, ◌++◌, String, ltb, leb, if◌then◌else◌, then_some, length,
}

abbrev pub min_recorded_presses : ℕ
min_recorded_presses = 10

pub record BeatmapRef : Type 0 where
  pub title : String
  pub artist : String
  pub difficulty : String
  pub beatmap_id : Option ℤ
  pub checksum : Option String
  pub rule_set : Option String
  pub mods : Option String

-- `for _ in 0..n { s = step(s) }`
unfoldable pub repeat {ℓ} : {S : Type ℓ} → ℕ → (S → S) → S → S
repeat zero step s = s
repeat (suc n) step s = repeat n step (step s)

module _ (fl : Float) where
  open fl use {F, lit, of_ℕ, secs, add, sub, mul, div, max, clamp, lt, le, is_nan, is_finite}

  pub record SongClock : Type 0 where
    pub live_ms : F
    pub first_object_ms : F
    pub last_object_ms : F
    pub rate : F

  pub record SongRate : Type 0 where
    pub presses : ℕ
    pub ms : F
    pub peak_ppm : Option F

  pub ppm : SongRate → Option F
  ppm s = then_some (le (lit 5000) s.ms) (div (mul (lit 60000) (of_ℕ s.presses)) s.ms)

  pub record AttemptStats : Type 0 where
    pub started_at : ℕ
    pub ended_at : Option ℕ
    pub beatmap : BeatmapRef
    pub k1 : ChannelStats fl
    pub k2 : ChannelStats fl
    pub combined : ChannelStats fl
    pub song : SongRate
    pub replay : Bool

  unfoldable pub is_recordable : AttemptStats → Bool
  is_recordable s =
      not s.replay
      && (leb min_recorded_presses s.combined.presses && ltb 0 s.combined.valid_intervals)

  pub record AttemptTracker : Type 0 where
    pub origin : ℕ
    pub started_at : ℕ
    pub beatmap : BeatmapRef
    pub k1 : ChannelTracker fl
    pub k2 : ChannelTracker fl
    pub combined : ChannelTracker fl
    pub song : SongRate
    pub in_song : Bool
    pub song_at : Option (F × ℕ)
    pub song_window : List F
    pub replay : Bool

  unfoldable pub new : BeatmapRef → ℕ → ℕ → AttemptTracker
  new beatmap origin started_at = record {
    origin = origin;
    started_at = started_at;
    beatmap = beatmap;
    k1 = new_channel fl;
    k2 = new_channel fl;
    combined = new_channel fl;
    song = record { presses = 0; ms = lit 0; peak_ppm = none };
    in_song = false;
    song_at = none;
    song_window = [];
    replay = false;
  }

  unfoldable pub mark_replay : AttemptTracker → AttemptTracker
  mark_replay a = record a { replay = true }

  -- A clock is passed over unless it has a length and a positive, finite rate.
  unfoldable pub song_clock : AttemptTracker → SongClock → ℕ → AttemptTracker
  song_clock a clock at =
      let first = clock.first_object_ms in
      let last = clock.last_object_ms in
      let ms = div (sub (clamp clock.live_ms first last) first) clock.rate in
      if le last first
        || (is_nan last || (is_nan first || (not (is_finite clock.rate) || le clock.rate (lit 0))))
      then a
      else record a {
        in_song = le (sub first (lit 200)) clock.live_ms && le clock.live_ms (add last (lit 200));
        song = record (a.song) { ms = ms };
        song_at = some (ms, at);
      }

  pub song_time : AttemptTracker → ℕ → F
  song_time a at = elim a.song_at [
    | some (ms, clock_at) ↦ add ms (fl.min (mul (secs (at - clock_at)) (lit 1000)) (lit 250))
    | none ↦ a.song.ms
  ]

  -- `while front <= limit { pop_front }`
  pub drop_old : F → List F → List F
  drop_old limit [] = []
  drop_old limit (x ∷ xs) =
      let rest = drop_old limit xs in elim (le x limit) [ true ↦ rest | false ↦ x ∷ xs ]

  unfoldable pub song_press : ℕ → AttemptTracker → AttemptTracker
  unfolding song_time drop_old
  song_press at a =
      let t = song_time a at in
      let window = drop_old (sub t (lit 10000)) (a.song_window ++ t ∷ []) in
      let rate = div (mul (lit 60000) (of_ℕ (length window))) (lit 10000) in
      record a {
        song_window = window;
        song = record (a.song) {
          presses = saturating_suc a.song.presses;
          peak_ppm = raise_peak fl a.song.peak_ppm (then_some (le (lit 10000) t) rate);
        };
      }

  unfoldable pub coarse_timing : AttemptTracker → AttemptTracker
  coarse_timing a = record a {
    k1 = Channel.coarse_timing fl a.k1;
    k2 = Channel.coarse_timing fl a.k2;
    combined = Channel.coarse_timing fl a.combined;
  }

  unfoldable pub ms : AttemptTracker → ℕ → F
  ms a at = mul (secs (at - a.origin)) (lit 1000)

  unfoldable pub press_k1 : F → AttemptTracker → AttemptTracker
  press_k1 t a = record a { k1 = Channel.press fl a.k1 t; combined = Channel.press fl a.combined t }

  unfoldable pub press_k2 : F → AttemptTracker → AttemptTracker
  press_k2 t a = record a { k2 = Channel.press fl a.k2 t; combined = Channel.press fl a.combined t }

  -- `k1 + k2` is a `u32` sum.
  unfoldable pub presses : AttemptTracker → ℕ → ℕ → ℕ → AttemptTracker
  unfolding ms
  presses a k1 k2 at =
      let t = ms a at in
      let sung = if a.in_song then repeat (min ((k1 + k2) % 2 ^ 32) 128) (song_press at) a else a in
      repeat (min k2 64) (press_k2 t) (repeat (min k1 64) (press_k1 t) sung)

  unfoldable pub advance : AttemptTracker → ℕ → AttemptTracker
  unfolding ms
  advance a now =
      let t = ms a now in
      record a {
        k1 = Channel.advance fl a.k1 t;
        k2 = Channel.advance fl a.k2 t;
        combined = Channel.advance fl a.combined t;
      }

  unfoldable pub update_beatmap : AttemptTracker → BeatmapRef → AttemptTracker
  update_beatmap a beatmap = record a { beatmap = beatmap }

  unfoldable pub snapshot : AttemptTracker → AttemptStats
  snapshot a = record {
    started_at = a.started_at;
    ended_at = none;
    beatmap = a.beatmap;
    k1 = Channel.stats fl a.k1;
    k2 = Channel.stats fl a.k2;
    combined = Channel.stats fl a.combined;
    song = a.song;
    replay = a.replay;
  }

  abbrev at_rest : ChannelStats fl → ChannelStats fl
  at_rest c = record c { current_ppm = some (lit 0) }

  unfoldable pub finish : AttemptTracker → ℕ → AttemptStats
  unfolding snapshot
  finish a ended_at =
      let s = snapshot a in
      record s {
        ended_at = some ended_at;
        k1 = at_rest s.k1;
        k2 = at_rest s.k2;
        combined = at_rest s.combined;
      }
