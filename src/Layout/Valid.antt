-- ===== src/Layout/Valid.antt =====
-- `Layout::validate` accepts exactly the layouts that the pad can draw, and on those the rectangle
-- arithmetic of `contains` does not wrap.
use Prim.Native.String.{len}
use opad.Prelude.Int.{ℤ, pos, negsuc, ◌+ℤ◌, ◌≤ℤ◌, ltb_ℤ}
use opad.Layout.Sources.{source_info}
use opad.Layout.{Widget, Layout, validate, validate_from, validate_widget, contains, add_i16}
use opad.Prelude.{
  ℕ, suc, ◌≤◌, ◌≡◌, ◌⊎◌, ◌↔◌, true, List, [], ◌∷◌, is_some, length, All, arith, ok, refl,
}

-- A known source, a size of at least one pixel and at most twice the screen, a place near the
-- screen, and texts that fit the pad's buffers.
pub record IsDrawable (wd : Widget) : Type 0 where
  pub source : (wd.source ≡ 0) ⊎ (is_some (source_info wd.source) ≡ true)
  pub width : (pos 1 ≤ℤ wd.w) × (wd.w ≤ℤ pos 640)
  pub height : (pos 1 ≤ℤ wd.h) × (wd.h ≤ℤ pos 480)
  pub across : (negsuc 319 ≤ℤ wd.x) × (wd.x ≤ℤ pos 640)
  pub down : (negsuc 239 ≤ℤ wd.y) × (wd.y ≤ℤ pos 480)
  pub label_fits : len wd.label ≤ 31
  pub suffix_fits : len wd.suffix ≤ 11

widget_iff : (index : ℕ) (wd : Widget) → (validate_widget index wd ≡ ok tt) ↔ IsDrawable wd
unfolding validate_widget
widget_iff index wd = ground arith

from_iff : (index : ℕ) (wds : List Widget) → (validate_from index wds ≡ ok tt) ↔ All IsDrawable wds
unfolding validate_from
from_iff index [] = (λ h. tt, λ h. refl)
from_iff index (wd ∷ wds) = ground (arith, widget_iff index wd, from_iff (suc index) wds)

-- A layout is accepted exactly if it has at most 32 widgets and every widget is drawable.
pub validate_layout_iff :
    (l : Layout) → (validate l ≡ ok tt) ↔ ((length l.widgets ≤ 32) × All IsDrawable l.widgets)
unfolding validate
validate_layout_iff l = ground (arith, from_iff 0 l.widgets)

add_i16_small : (a b : ℤ) → negsuc 32767 ≤ℤ (a +ℤ b) → (a +ℤ b) ≤ℤ pos 32767 → add_i16 a b ≡ a +ℤ b
unfolding add_i16
add_i16_small (pos a) (pos b) lo hi = ground arith
add_i16_small _ _ lo hi = ground arith

-- The far edge of a drawable widget is in range of an `i16`.
sum_fits :
    (a b : ℤ) (lo hi : ℕ)
    → (negsuc lo ≤ℤ a) × (a ≤ℤ pos hi)
    → (pos 1 ≤ℤ b) × (b ≤ℤ pos hi)
    → (lo ≤ 319) × (hi ≤ 640)
    → add_i16 a b ≡ a +ℤ b
sum_fits a b lo hi p q small = add_i16_small a b (ground arith) (ground arith)

-- On a drawable widget a point is inside exactly if it is from `x` up to before `x + w`, and from `y`
-- up to before `y + h`, without wrap-around.
pub contains_iff :
    (wd : Widget) (x y : ℤ)
    → IsDrawable wd
    → (contains wd x y ≡ true) ↔ (
        (wd.x ≤ℤ x)
        × (ltb_ℤ x (wd.x +ℤ wd.w) ≡ true)
        × (wd.y ≤ℤ y)
        × (ltb_ℤ y (wd.y +ℤ wd.h) ≡ true))
unfolding contains
contains_iff wd x y v =
    rw
      (
        sum_fits wd.x wd.w 319 640 v.across v.width (omega arith),
        sum_fits wd.y wd.h 239 480 v.down v.height (omega arith),
        contains,
      )
      (ground arith)
