-- ===== src/Daemon/Invariant.antt =====
-- The deadlines, the attempt and its queue belong to the mode (desktop/daemon/src/runtime.rs).
pub mod Pieces
pub mod Trace
use opad.Tap.Float.{Float}
use opad.Tap.Attempt.{AttemptStats, BeatmapRef}
use opad.Tap.Attempt
use opad.Daemon.State.{is_idle, is_playing, is_cooldown, playing}
use opad.Daemon.Controller.{RuntimeController, Env}
use opad.Daemon.Step.{Step, ◌&>◌, ask, quiet}
use opad.Daemon.Attempts.{
  cap_unsaved, max_unsaved_attempts, finish_tap_attempt, start_tap_attempt, publish_tap_attempt,
  requeue_tap_attempts, queue_attempt,
}
use opad.Prelude.{
  ◌&&◌, not, ℕ, ◌≡◌, ◌≤◌, ◌-◌, refl, Bool, true, false, Option, none, some, List, [], ◌∷◌, ◌++◌,
  arith, is_some, length, length-drop,
}

module _ {fl : Float} where
  -- What holds within a frame of a play, before the mode has followed.
  pub record Timed (m : RuntimeController fl) : Type 0 where
    pub cooldown : is_some m.cooldown_deadline ≡ is_cooldown m.state.mode
    pub backup : (is_some m.backup_deadline && not (is_idle m.state.mode)) ≡ false
    pub queue : length m.tap_unsaved ≤ max_unsaved_attempts

  -- A cooldown has a deadline and nothing else has one; a backup is due only when idle; an attempt is
  -- open only during a play; at most 500 attempts wait.
  pub record Sound (m : RuntimeController fl) : Type 0 where
    pub timed : Timed m
    pub attempt : (is_some m.tap_attempt && not (is_playing m.state.mode)) ≡ false

  pub record Keeps (m : RuntimeController fl) (s : Step fl) : Type 0 where
    pub keep : Sound m → Sound s.0

  pub record KeepsTimed (m : RuntimeController fl) (s : Step fl) : Type 0 where
    pub keep : Timed m → Timed s.0

  pub &>-Keeps :
      {m : RuntimeController fl} {s : Step fl} {f : RuntimeController fl → Step fl}
      → Keeps m s
      → ((n : RuntimeController fl) → Keeps n (f n))
      → Keeps m (s &> f)
  unfolding ◌&>◌
  &>-Keeps {s = s} {f = f} hs hf = record { keep = λ h. (hf s.0).keep (hs.keep h) }

  pub &>-KeepsTimed :
      {m : RuntimeController fl} {s : Step fl} {f : RuntimeController fl → Step fl}
      → KeepsTimed m s
      → ((n : RuntimeController fl) → KeepsTimed n (f n))
      → KeepsTimed m (s &> f)
  unfolding ◌&>◌
  &>-KeepsTimed {s = s} {f = f} hs hf = record { keep = λ h. (hf s.0).keep (hs.keep h) }

-- A queue cut to its limit keeps to it.
pub length-cap_unsaved {ℓ} :
    {A : Type ℓ} (xs : List A) → length (cap_unsaved xs) ≤ max_unsaved_attempts
unfolding cap_unsaved
length-cap_unsaved xs = omega (arith, length-drop (length xs - max_unsaved_attempts) xs)

module _ (fl : Float) where
  pub finish_tap_attempt-KeepsTimed :
      (env : Env) (m : RuntimeController fl) → KeepsTimed m (quiet (finish_tap_attempt fl env m))
  unfolding finish_tap_attempt
  finish_tap_attempt-KeepsTimed env m = grind (arith, length-cap_unsaved)
