-- ===== src/Model/HallEffect/Search.antt =====
-- The search for the lowest actuation setting that is used as it is (`he_min_actuation`).
use opad.Prelude.{
  ℕ, zero, suc, ◌+◌, ◌-◌, ◌/◌, ◌≤◌, ◌<◌, ◌≡◌, refl, Bool, true, false, Bool-cases, Option, some,
  arith, ltb, ltb→lt, lt→ltb, not_ltb→le, inl, inr, ap, ◌∙◌, sym,
}
use opad.Model.HallEffect.{
  HeKeyConfig, counts, floors_of, press_min, raised, is_raised, bisect, he_min_actuation,
}
use opad.Model.HallEffect.Thresholds.{raised_lem, counts_mono}

-- `r` is the first place below `top` at which the test fails, or `top`.
abbrev pub Splits : (ℕ → Bool) → ℕ → ℕ → Type 0
Splits test top r =
    (r ≤ top) × ((p : ℕ) → p < r → test p ≡ true) × ((p : ℕ) → r ≤ p → p < top → test p ≡ false)

module _ (test : ℕ → Bool) (down : (p q : ℕ) → p ≤ q → test q ≡ true → test p ≡ true)
    (top : ℕ) where
  up : (p q : ℕ) → p ≤ q → test p ≡ false → test q ≡ false
  up p q le h = elim (Bool-cases (test q)) [ inl t ↦ absurd (ground (arith, down p q)) | inr f ↦ f ]

  bisect_stop : (fuel lo hi : ℕ) → hi ≤ lo → bisect (suc fuel) test lo hi ≡ lo
  unfolding bisect
  bisect_stop fuel lo hi h = ground arith

  bisect_right :
      (fuel lo hi : ℕ)
      → lo < hi
      → test ((lo + hi) / 2) ≡ true
      → bisect (suc fuel) test lo hi ≡ bisect fuel test ((lo + hi) / 2 + 1) hi
  unfolding bisect
  bisect_right fuel lo hi h t = ground arith

  bisect_left :
      (fuel lo hi : ℕ)
      → lo < hi
      → test ((lo + hi) / 2) ≡ false
      → bisect (suc fuel) test lo hi ≡ bisect fuel test lo ((lo + hi) / 2)
  unfolding bisect
  bisect_left fuel lo hi h t = ground arith

  bisect-Splits :
      (fuel lo hi : ℕ)
      → hi ≤ lo + fuel
      → lo ≤ hi
      → hi ≤ top
      → ((p : ℕ) → p < lo → test p ≡ true)
      → ((p : ℕ) → hi ≤ p → p < top → test p ≡ false)
      → Splits test top (bisect fuel test lo hi)
  unfolding bisect
  bisect-Splits zero lo hi f le limit below above =
      (omega arith, below, λ p h. above p (omega arith))
  bisect-Splits (suc fuel) lo hi f le limit below above = elim (Bool-cases (ltb lo hi)) [
    | inr stop ↦
        rw (bisect_stop fuel lo hi (not_ltb→le lo hi stop))
          (omega arith, below, λ p h. above p (omega (arith, not_ltb→le lo hi stop)))
    | inl go ↦
        let less = ltb→lt lo hi go in
        elim (Bool-cases (test ((lo + hi) / 2))) [
          | inl t ↦ rw (bisect_right fuel lo hi less t) (
              bisect-Splits fuel ((lo + hi) / 2 + 1) hi (omega arith) (omega arith) limit
                (λ p h. down p ((lo + hi) / 2) (omega arith) t) above)
          | inr t ↦ rw (bisect_left fuel lo hi less t) (
              bisect-Splits fuel lo ((lo + hi) / 2) (omega arith) (omega arith) (omega arith) below
                (λ p h _. up ((lo + hi) / 2) p h t))
        ]
  ]

module _ (s : HeKeyConfig) (rest full : ℕ) (floors : Option (ℕ × ℕ)) where
  abbrev raises : ℕ → Bool
  raises pct = is_raised (raised s rest full floors pct)

  raises_lem :
      (pct : ℕ)
      → rest < full
      → raises pct ≡ ltb (counts (full - rest) pct) (press_min s (full - rest) (floors_of s floors))
  raises_lem pct h = ap is_raised (raised_lem s rest full floors pct h)

  raises_down : rest < full → (p q : ℕ) → p ≤ q → raises q ≡ true → raises p ≡ true
  raises_down h p q le t =
      let deep = ltb→lt _ _ (sym (raises_lem q h) ∙ t) in
      raises_lem p h ∙ lt→ltb _ _ (omega (arith, counts_mono (full - rest) p q le))

  he_min_actuation-Splits :
      rest < full
      → (lo : ℕ) × (he_min_actuation s rest full floors ≡ some lo) × Splits raises 1000 lo
  unfolding he_min_actuation
  he_min_actuation-Splits h = (
    bisect 1000 raises 0 1000,
    rw (raised_lem s rest full floors 1000 h, he_min_actuation) refl,
    bisect-Splits raises (raises_down h) 1000 1000 0 1000 (omega arith) (omega arith) (omega arith)
        (λ p. λ z. elim z [ ]) (λ p ge lt. absurd (omega arith)),
  )

  raises_below : (lo pct : ℕ) → Splits raises 1000 lo → pct < 1000 → raises pct ≡ ltb pct lo
  raises_below lo pct (le, below, above) small = elim (Bool-cases (ltb pct lo)) [
    | inl under ↦ below pct (ltb→lt _ _ under) ∙ sym under
    | inr over ↦ above pct (not_ltb→le _ _ over) small ∙ sym over
  ]

  -- Over a usable calibration the search finds a setting `lo` of at most 1000, and each setting under
  -- 1000 is raised exactly if it is under `lo`: `lo` is the lowest setting that the pad uses as is,
  -- where there is one under 1000.
  pub he_min_actuation_least :
      (pct : ℕ)
      → rest < full
      → pct < 1000
      → (lo : ℕ) × (he_min_actuation s rest full floors ≡ some lo)
        × (lo ≤ 1000)
        × (raised s rest full floors pct ≡ some (ltb pct lo))
  he_min_actuation_least pct h small =
      let (lo, found, split) = he_min_actuation-Splits h in
      let same = sym (raises_lem pct h) ∙ raises_below lo pct split small in
      (lo, found, split.0, raised_lem s rest full floors pct h ∙ ap some same)

  at_end : (lo : ℕ) → Splits raises 1000 lo → (lo < 1000 → raises lo ≡ true) → lo ≡ 1000
  at_end lo (le, below, above) all = elim (Bool-cases (ltb lo 1000)) [
    | inl less ↦
        absurd (ground (arith, all (ltb→lt _ _ less), above lo (omega arith) (ltb→lt _ _ less)))
    | inr not_less ↦ omega (arith, not_ltb→le _ _ not_less)
  ]

  -- Where even a full press is raised the search still answers 1000, a setting that the pad does not
  -- use as it is.
  pub he_min_actuation-raised :
      rest < full
      → counts (full - rest) 1000 < press_min s (full - rest) (floors_of s floors)
      → (he_min_actuation s rest full floors ≡ some 1000)
        × (raised s rest full floors 1000 ≡ some true)
  he_min_actuation-raised h deep =
      let (lo, found, split) = he_min_actuation-Splits h in
      let all : (p : ℕ) → p ≤ 1000 → raises p ≡ true =
        λ p le. raises_lem p h ∙ lt→ltb _ _ (omega (arith, counts_mono (full - rest) p 1000 le)) in
      let last : lo ≡ 1000 = at_end lo split (λ less. all lo (omega (arith, less))) in
      (rw last at found, raised_lem s rest full floors 1000 h ∙ ap some (lt→ltb _ _ deep))
