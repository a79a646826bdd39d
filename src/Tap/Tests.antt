-- ===== src/Tap/Tests.antt =====
-- A small stand-in for `f64` and runs of the tap rate over it: counts with rounded division.
use opad.Tap.Float.{Float}
use opad.Tap.Attempt.{BeatmapRef, new, presses}
use opad.Tap.Bounds.{BoundedAttempt, presses-Bounded}
use opad.Prelude.{ℕ, ◌+◌, ◌-◌, ◌*◌, ◌/◌, max, min, true, false, ltb, leb, ◌==◌, none, arith}

abbrev pub whole : Float
whole = record {
  F = ℕ;
  lit = λ n. n;
  of_ℕ = λ n. n;
  secs = λ n. n / 1000000000;
  add = λ a b. a + b;
  sub = λ a b. a - b;
  mul = λ a b. a * b;
  div = λ a b. a / b;
  max = λ a b. max a b;
  min = λ a b. min a b;
  clamp = λ x lo hi. min (max x lo) hi;
  round = λ x. x;
  lt = λ a b. ltb a b;
  le = λ a b. leb a b;
  eq = λ a b. a == b;
  is_nan = λ x. false;
  is_finite = λ x. true;
}

abbrev no_map : BeatmapRef
no_map = record {
  title = "";
  artist = "";
  difficulty = "";
  beatmap_id = none;
  checksum = none;
  rule_set = none;
  mods = none;
}

new_attempt-BoundedAttempt : BoundedAttempt whole (new whole no_map 0 0)
unfolding new
new_attempt-BoundedAttempt = record {
  k1 = record { intervals = omega arith; times = omega arith };
  k2 = record { intervals = omega arith; times = omega arith };
  combined = record { intervals = omega arith; times = omega arith };
}

presses-Bounded_example : BoundedAttempt whole (presses whole (new whole no_map 0 0) 9 3 2000000000)
presses-Bounded_example =
    presses-Bounded whole (new whole no_map 0 0) 9 3 2000000000 new_attempt-BoundedAttempt
