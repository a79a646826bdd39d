-- ===== src/Tap/Bounds.antt =====
-- How long the lists of the rolling calculation get (desktop/crates/opad-model/src/tap_rate.rs).
use opad.Tap.Float.{Float}
use opad.Tap.Channel
use opad.Tap.Channel.{
  ChannelTracker, window_intervals, max_recent, push_recent, push_window, press_within, press_after,
  end_sequence, new_channel,
}
use opad.Tap.Attempt
use opad.Tap.Attempt.{AttemptTracker, repeat, press_k1, press_k2, song_press, presses, new}
use opad.Prelude.{
  ℕ, zero, suc, Bool, true, false, ◌+◌, ◌%◌, ◌^◌, min, ◌-◌, ◌≤◌, ◌==◌, Option, none, some, List, [],
  ◌∷◌, ◌++◌, arith, length, length-append, length-drop, drop, if◌then◌else◌,
}

module _ (fl : Float) where
  open fl use {F}

  -- At most six intervals, and at most 128 press times.
  pub record Bounded (t : ChannelTracker fl) : Type 0 where
    pub intervals : length t.window ≤ window_intervals
    pub times : length t.recent ≤ max_recent

  push_window-le :
      (window : List F) (interval : F)
      → length window ≤ window_intervals
      → length (push_window fl window interval) ≤ window_intervals
  unfolding push_window
  push_window-le window interval h = ground (
    arith,
    length-append window (interval ∷ []),
    length-append (drop 1 window) (interval ∷ []),
    length-drop 1 window,
  )

  push_recent-le :
      (recent : List F) (prev at : F) → length (push_recent fl recent prev at) ≤ max_recent
  unfolding push_recent
  push_recent-le recent prev at =
      let all = (if length recent == 0 then prev ∷ [] else recent) ++ at ∷ [] in
      omega (arith, length-drop (length all - max_recent) all)

  press_after-Bounded :
      (t : ChannelTracker fl) (last : Option F) (at : F)
      → Bounded t
      → Bounded (press_after fl t last at)
  unfolding press_after press_within end_sequence
  press_after-Bounded t none at h = ground arith
  press_after-Bounded t (some prev) at h = ground (
    arith,
    push_window-le t.window (fl.max (fl.sub at prev) (fl.lit 0)) h.intervals,
    push_recent-le t.recent prev at,
  )

  press-Bounded : (t : ChannelTracker fl) (at : F) → Bounded t → Bounded (Channel.press fl t at)
  unfolding Channel.press
  press-Bounded t at h =
      press_after-Bounded _ t.last_press_ms at (record { intervals = h.intervals; times = h.times })

  pub record BoundedAttempt (a : AttemptTracker fl) : Type 0 where
    pub k1 : Bounded a.k1
    pub k2 : Bounded a.k2
    pub combined : Bounded a.combined

  repeat-keeps :
      {S : Type 0} (P : S → Type 0) (step : S → S) (n : ℕ) (s : S)
      → ((t : S) → P t → P (step t))
      → P s
      → P (repeat n step s)
  unfolding repeat
  repeat-keeps P step zero s keep h = h
  repeat-keeps P step (suc n) s keep h = repeat-keeps P step n (step s) keep (keep s h)

  press_k1-Bounded :
      (t : F) (a : AttemptTracker fl) → BoundedAttempt a → BoundedAttempt (press_k1 fl t a)
  unfolding press_k1
  press_k1-Bounded t a h = record {
    k1 = press-Bounded a.k1 t h.k1;
    k2 = h.k2;
    combined = press-Bounded a.combined t h.combined;
  }

  press_k2-Bounded :
      (t : F) (a : AttemptTracker fl) → BoundedAttempt a → BoundedAttempt (press_k2 fl t a)
  unfolding press_k2
  press_k2-Bounded t a h = record {
    k1 = h.k1;
    k2 = press-Bounded a.k2 t h.k2;
    combined = press-Bounded a.combined t h.combined;
  }

  song_press-Bounded :
      (at : ℕ) (a : AttemptTracker fl) → BoundedAttempt a → BoundedAttempt (song_press fl at a)
  unfolding song_press
  song_press-Bounded at a h = record { k1 = h.k1; k2 = h.k2; combined = h.combined }

  sung-Bounded :
      (a : AttemptTracker fl) (n at : ℕ)
      → BoundedAttempt a
      → BoundedAttempt (if a.in_song then repeat n (song_press fl at) a else a)
  sung-Bounded a n at h = both a.in_song
    where
      both : (b : Bool) → BoundedAttempt (if b then repeat n (song_press fl at) a else a)
      both true = repeat-keeps BoundedAttempt (song_press fl at) n a (song_press-Bounded at) h
      both false = h

  -- However many presses arrive at once, each of the attempt's three channels keeps at most six
  -- intervals and at most 128 press times.
  pub presses-Bounded :
      (a : AttemptTracker fl) (k1 k2 at : ℕ)
      → BoundedAttempt a
      → BoundedAttempt (presses fl a k1 k2 at)
  unfolding presses
  presses-Bounded a k1 k2 at h =
      let t = Attempt.ms fl a at in
      let sung =
        if a.in_song then repeat (min ((k1 + k2) % 2 ^ 32) 128) (song_press fl at) a else a in
      repeat-keeps BoundedAttempt (press_k2 fl t) (min k2 64)
        (repeat (min k1 64) (press_k1 fl t) sung) (press_k2-Bounded t)
        (repeat-keeps BoundedAttempt (press_k1 fl t) (min k1 64) sung (press_k1-Bounded t)
          (sung-Bounded a (min ((k1 + k2) % 2 ^ 32) 128) at h))
