-- ===== src/Update/Fits.antt =====
-- Which firmware image fits a pad (desktop/crates/opad-update/src/firmware.rs).
use opad.Prelude.Text.{same_codes}
use opad.Update.Version.{is_newer}
use opad.Update.Manifest.{Artifact, ArtifactKind, same_kind}
use opad.Update.Firmware.{image_fits, board_fits, too_old}
use opad.Prelude.{
  ℕ, ◌≡◌, ◌⊎◌, inl, inr, refl, ap, sym, ◌∙◌, true, false, Option, none, some, List, [], ◌∷◌, ◌++◌,
  str_eq_iff, find, All, Bool-cases, arith,
}

-- For the chip, a firmware, and for this board where both the image and the pad name one.
pub record Fits (board : Option (List ℕ)) (a : Artifact) : Type 0 where
  pub chip : a.target ≡ "esp32s3"
  pub kind : a.kind ≡ ArtifactKind.firmware
  pub same_board : (a.board ≡ none) ⊎ ((board ≡ none) ⊎ (a.board ≡ board))

-- The app is not older than what the firmware asks for, if it asks.
pub record IsUsable (min_app : Option (List ℕ)) (app_version : List ℕ) : Type 0 where
  pub usable :
      (min_app ≡ none) ⊎ ((v : List ℕ) × (min_app ≡ some v) × (is_newer v app_version ≡ false))

pub too_old-IsUsable :
    (min_app : Option (List ℕ)) (app_version : List ℕ)
    → too_old min_app app_version ≡ false
    → IsUsable min_app app_version
too_old-IsUsable none app_version h = record { usable = inl refl }
too_old-IsUsable (some v) app_version h = record { usable = inr (v, refl, h) }

same_codes-eq : (a b : List ℕ) → same_codes a b ≡ true → a ≡ b
same_codes-eq [] [] h = refl
same_codes-eq [] (d ∷ ds) h = ground arith
same_codes-eq (c ∷ cs) [] h = ground arith
same_codes-eq (c ∷ cs) (d ∷ ds) h =
    let head : c ≡ d = ground arith in let tail = same_codes-eq cs ds (ground arith) in cc

same_codes_refl : (a : List ℕ) → same_codes a a ≡ true
same_codes_refl [] = refl
same_codes_refl (c ∷ cs) = ground (arith, same_codes_refl cs)

same_kind-eq :
    (k : ArtifactKind) → same_kind k ArtifactKind.firmware ≡ true → k ≡ ArtifactKind.firmware
same_kind-eq k h = ground arith

board_fits-eq :
    (wanted own : Option (List ℕ))
    → board_fits wanted own ≡ true
    → (wanted ≡ none) ⊎ ((own ≡ none) ⊎ (wanted ≡ own))
board_fits-eq none own h = inl refl
board_fits-eq (some w) none h = inr (inl refl)
board_fits-eq (some w) (some o) h = inr (inr (ap some (same_codes-eq w o h)))

image_fits-Fits :
    (board : Option (List ℕ)) (a : Artifact) → image_fits board a ≡ true → Fits board a
image_fits-Fits board a h = record {
  chip = (str_eq_iff a.target "esp32s3").0 (ground arith);
  kind = same_kind-eq a.kind (ground arith);
  same_board = board_fits-eq a.board board (ground arith);
}

Fits-board :
    (wanted own : Option (List ℕ))
    → (wanted ≡ none) ⊎ ((own ≡ none) ⊎ (wanted ≡ own))
    → board_fits wanted own ≡ true
Fits-board none own h = refl
Fits-board (some w) none h = refl
Fits-board (some w) (some o) (inr (inr e)) =
    let same : w ≡ o = cc in ap (same_codes w) (sym same) ∙ same_codes_refl w
Fits-board (some w) (some o) (inl e) = ground arith
Fits-board (some w) (some o) (inr (inl e)) = ground arith

Fits-image_fits :
    (board : Option (List ℕ)) (a : Artifact) → Fits board a → image_fits board a ≡ true
Fits-image_fits board a f =
    let chip = (str_eq_iff a.target "esp32s3").1 f.chip in
    let fits = Fits-board a.board board f.same_board in
    let kind : same_kind a.kind ArtifactKind.firmware ≡ true =
      ap (λ k. same_kind k ArtifactKind.firmware) f.kind in
    ground (arith, chip, fits, kind)

-- The image is the first of the list that fits the pad.
pub record IsFirstFit (board : Option (List ℕ)) (all : List Artifact) (a : Artifact) : Type 0 where
  pub before : List Artifact
  pub after : List Artifact
  pub listed : all ≡ before ++ (a ∷ after)
  pub fits : Fits board a
  pub passed : All (λ b. ¬ Fits board b) before

some_inj : {A : Type 0} (a b : A) → some a ≡ some b → a ≡ b
some_inj a b h = cc

absent : {A : Type 0} {a : A} → ◌≡◌ {A = Option A} none (some a) → ⊥
absent h = ground arith

true_not_false : true ≡ false → ⊥
true_not_false h = ground arith

pub find-IsFirstFit :
    (board : Option (List ℕ)) (all : List Artifact) (a : Artifact)
    → find (image_fits board) all ≡ some a
    → IsFirstFit board all a
find-IsFirstFit board [] a h = elim (absent h) [ ]
find-IsFirstFit board (b ∷ rest) a h = elim (Bool-cases (image_fits board b)) [
  | inl e ↦
      let same : b ≡ a =
        some_inj b a
          (ap (λ t. elim t [ true ↦ some b | false ↦ find (image_fits board) rest ]) (sym e) ∙ h) in
      record {
        before = [];
        after = rest;
        listed = ap (λ x. x ∷ rest) same;
        fits = image_fits-Fits board a (ap (image_fits board) (sym same) ∙ e);
        passed = tt;
      }
  | inr e ↦
      let r =
        find-IsFirstFit board rest a
          (ap (λ t. elim t [ true ↦ some b | false ↦ find (image_fits board) rest ]) (sym e) ∙ h) in
      record {
        before = b ∷ r.before;
        after = r.after;
        listed = ap (◌∷◌ b) r.listed;
        fits = r.fits;
        passed = (λ f. true_not_false (sym (Fits-image_fits board b f) ∙ e), r.passed);
      }
]
