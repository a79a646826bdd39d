-- ===== src/Model/HallEffect/Thresholds.antt =====
-- What the thresholds of `he_effective` promise.
use mathlib.Core.Path.{subst}
use opad.Prelude.{
  refl, ℕ, ◌-◌, ◌≤◌, ◌<◌, ◌≡◌, Bool-cases, Option, none, some, arith, ltb, leb, not_leb→lt,
  lt→leb_false, inl, inr,
}
use opad.Model.HallEffect.{
  HeKeyConfig, HeEffective, Floors, IsEffective, counts, floors_of, press_min, thresholds,
  he_effective, raised,
}

thresholds-IsEffective :
    (s : HeKeyConfig) (span : ℕ) (f : Floors) → IsEffective s f (thresholds s span f)
unfolding thresholds
thresholds-IsEffective s span f = ground arith

pub he_effective-some :
    (s : HeKeyConfig) (rest full : ℕ) (floors : Option (ℕ × ℕ))
    → rest < full
    → he_effective s rest full floors ≡ some (thresholds s (full - rest) (floors_of s floors))
unfolding he_effective
he_effective-some s rest full floors h = rw (lt→leb_false _ _ h)

pub he_effective-none :
    (s : HeKeyConfig) (rest full : ℕ) (floors : Option (ℕ × ℕ))
    → full ≤ rest
    → he_effective s rest full floors ≡ none
unfolding he_effective
he_effective-none s rest full floors h = ground arith

-- Whatever the settings are, the release point sits at least the movement floor above the press
-- point and not above the rest floor, the top reset point is not deeper than the release point, the
-- press point is never shallower than the setting asks, and `press_raised` says exactly whether it
-- is deeper.
pub he_effective-IsEffective :
    (s : HeKeyConfig) (rest full : ℕ) (floors : Option (ℕ × ℕ)) (e : HeEffective)
    → he_effective s rest full floors ≡ some e
    → IsEffective s (floors_of s floors) e
he_effective-IsEffective s rest full floors e h = elim (Bool-cases (leb full rest)) [
  | inl flat ↦ absurd (ground (arith, he_effective-none s rest full floors))
  | inr wide ↦
      let same : thresholds s (full - rest) (floors_of s floors) ≡ e =
        cc (he_effective-some s rest full floors (not_leb→lt _ _ wide)) in
      subst (IsEffective s (floors_of s floors)) same
        (thresholds-IsEffective s (full - rest) (floors_of s floors))
]

-- Over a usable calibration a setting is raised exactly where its depth is above the least one.
pub raised_lem :
    (s : HeKeyConfig) (rest full : ℕ) (floors : Option (ℕ × ℕ)) (pct : ℕ)
    → rest < full
    → raised s rest full floors pct
      ≡ some (ltb (counts (full - rest) pct) (press_min s (full - rest) (floors_of s floors)))
unfolding raised thresholds floors_of
raised_lem s rest full none pct h =
    rw (he_effective-some (record s { actuation = pct }) rest full none h, raised) (ground arith)
raised_lem s rest full (some (r, m)) pct h =
    rw (he_effective-some (record s { actuation = pct }) rest full (some (r, m)) h, raised)
      (ground arith)

pub raised-none :
    (s : HeKeyConfig) (rest full : ℕ) (floors : Option (ℕ × ℕ)) (pct : ℕ)
    → full ≤ rest
    → raised s rest full floors pct ≡ none
unfolding raised
raised-none s rest full floors pct h =
    rw (he_effective-none (record s { actuation = pct }) rest full floors h, raised) refl

pub counts_mono : (span p q : ℕ) → p ≤ q → counts span p ≤ counts span q
unfolding counts
counts_mono span p q h = grind arith
