-- ===== src/Model/HallEffect.antt =====
-- Hall Effect thresholds as the pad builds them (desktop/crates/opad-model/src/lib.rs, `he_effective`
-- and `he_min_actuation`). A share of the span, an `f32` in the source, is kept as the exact count of
-- which it is a share.
pub mod Thresholds
pub mod Search
use opad.Prelude.{
  ℕ, zero, suc, ◌+◌, ◌-◌, ◌*◌, ◌/◌, ◌≤◌, ◌<◌, ◌≡◌, ◌↔◌, refl, min, max, Bool, true, false, ◌&&◌,
  ◌||◌, Option, none, some, String, arith, ltb, leb, if◌then◌else◌, Result, ok, err,
}
use opad.Model.Keys.{ConfigError, Checked, reject_if, he_range}

pub data HeRtMode : Type 0 where
  off normal continuous : HeRtMode

pub to_wire : HeRtMode → ℕ
to_wire off = 1
to_wire normal = 2
to_wire continuous = 3

abbrev is_continuous : HeRtMode → Bool
is_continuous continuous = true
is_continuous _ = false

pub record HeKeyConfig : Type 0 where
  pub actuation : ℕ
  pub release_hyst : ℕ
  pub top_reset : ℕ
  pub rt_press : ℕ
  pub rt_release : ℕ
  pub bottom_dead_zone : ℕ
  pub rt_mode : HeRtMode
  pub allow_below_noise_floor : Bool

abbrev pub default_he : HeKeyConfig
default_he = record {
  actuation = 500;
  release_hyst = 100;
  top_reset = 100;
  rt_press = 150;
  rt_release = 150;
  bottom_dead_zone = 0;
  rt_mode = off;
  allow_below_noise_floor = false;
}

unfoldable pub validate : HeKeyConfig → String → Checked
validate s name =
    reject_if
      (ltb 1000 s.actuation
        || (ltb 1000 s.release_hyst
            || (ltb 1000 s.top_reset
                || (ltb 1000 s.rt_press
                    || (ltb 1000 s.rt_release || ltb 1000 s.bottom_dead_zone)))))
      (he_range name)

pub record HeEffective : Type 0 where
  pub span : ℕ
  pub press : ℕ
  pub release : ℕ
  pub top_reset : ℕ
  pub press_raised : Bool

pub record Floors : Type 0 where
  pub rest_floor : ℕ
  pub move_floor : ℕ
  pub legacy : Bool

-- `(span * pct.min(1000) as i64 + 500) / 1000`; with `u32` counts the product is under 2^42.
unfoldable pub counts : ℕ → ℕ → ℕ
counts span pct = (span * min pct 1000 + 500) / 1000

unfoldable pub floors_of : HeKeyConfig → Option (ℕ × ℕ) → Floors
floors_of s none = record { rest_floor = 32; move_floor = 32; legacy = true }
floors_of s (some (r, m)) =
    if ltb 0 r && ltb 0 m
    then (if s.allow_below_noise_floor
        then record { rest_floor = 1; move_floor = 1; legacy = false }
        else record { rest_floor = r; move_floor = m; legacy = false })
    else record { rest_floor = 32; move_floor = 32; legacy = true }

-- The depth that the press point may not be above, `release_min + hyst`.
unfoldable pub press_min : HeKeyConfig → ℕ → Floors → ℕ
press_min s span f =
    let top = max (counts span s.top_reset) f.rest_floor in
    let hyst = max (counts span s.release_hyst) f.move_floor in
    (if f.legacy || is_continuous s.rt_mode then top else f.rest_floor) + hyst

unfoldable pub thresholds : HeKeyConfig → ℕ → Floors → HeEffective
unfolding press_min
thresholds s span f =
    let top = max (counts span s.top_reset) f.rest_floor in
    let hyst = max (counts span s.release_hyst) f.move_floor in
    let asked = counts span s.actuation in
    let press = max asked (press_min s span f) in
    let release = press - hyst in
    record {
      span = span;
      press = press;
      release = release;
      top_reset = min top release;
      press_raised = ltb asked press;
    }

unfoldable pub he_effective : HeKeyConfig → ℕ → ℕ → Option (ℕ × ℕ) → Option HeEffective
he_effective s rest full floors =
    if leb full rest then none else some (thresholds s (full - rest) (floors_of s floors))

-- `raised(pct)`
pub raised : HeKeyConfig → ℕ → ℕ → Option (ℕ × ℕ) → ℕ → Option Bool
raised s rest full floors pct =
    elim (he_effective (record s { actuation = pct }) rest full floors) [
      | none ↦ none
      | some e ↦ some e.press_raised
    ]

abbrev pub is_raised : Option Bool → Bool
is_raised (some b) = b
is_raised none = false

-- The `while lo < hi` of the binary search: `raised` is the test, and each round shortens the range,
-- so as many rounds as it is long are enough.
pub bisect : ℕ → (ℕ → Bool) → ℕ → ℕ → ℕ
bisect zero test lo hi = lo
bisect (suc fuel) test lo hi =
    let mid = (lo + hi) / 2 in
    elim (ltb lo hi) [
      | true ↦ bisect fuel test (if test mid then mid + 1 else lo) (if test mid then hi else mid)
      | false ↦ lo
    ]

pub he_min_actuation : HeKeyConfig → ℕ → ℕ → Option (ℕ × ℕ) → Option ℕ
he_min_actuation s rest full floors = elim (raised s rest full floors 1000) [
  | none ↦ none
  | some _ ↦ some (bisect 1000 (λ pct. is_raised (raised s rest full floors pct)) 0 1000)
]

-- What the pad's thresholds promise to the player, over calibrated counts.
pub record IsEffective (s : HeKeyConfig) (f : Floors) (e : HeEffective) : Type 0 where
  pub release_below_press : e.release + f.move_floor ≤ e.press
  pub release_above_floor : f.rest_floor ≤ e.release
  pub reset_within_release : e.top_reset ≤ e.release
  pub asked_or_deeper : counts e.span s.actuation ≤ e.press
  pub raised_iff : (e.press_raised ≡ true) ↔ (counts e.span s.actuation < e.press)
