-- ===== src/Layout/Tests.antt =====
-- Runs of the layout's checks.
use opad.Prelude.Int.{pos, ◌+ℤ◌, ◌≤ℤ◌, ltb_ℤ}
use opad.Prelude.{◌≡◌, ◌↔◌, ◌≤◌, refl, true, ok, [], ◌∷◌, All, length, arith, inr}
use opad.Layout.{Layout, Widget, new_widget, progress, grade, contains, validate}
use opad.Layout.Sources.{source_info}
use opad.Layout.Valid.{IsDrawable, validate_layout_iff, contains_iff}

abbrev bar : Widget
unfolding new_widget
bar = new_widget progress

abbrev two_widgets : Layout
two_widgets = record { background = 0; widgets = bar ∷ new_widget grade ∷ [] }

bar-IsDrawable : IsDrawable bar
unfolding new_widget source_info
bar-IsDrawable = record {
  source = inr refl;
  width = (omega arith, omega arith);
  height = (omega arith, omega arith);
  across = (omega arith, omega arith);
  down = (omega arith, omega arith);
  label_fits = omega arith;
  suffix_fits = omega arith;
}

validate_layout_iff_example :
    (validate two_widgets ≡ ok tt)
    ↔ ((length two_widgets.widgets ≤ 32) × All IsDrawable two_widgets.widgets)
validate_layout_iff_example = validate_layout_iff two_widgets

contains_iff_example : (contains bar (pos 60) (pos 107) ≡ true) ↔ (
    (bar.x ≤ℤ pos 60)
    × (ltb_ℤ (pos 60) (bar.x +ℤ bar.w) ≡ true)
    × (bar.y ≤ℤ pos 107)
    × (ltb_ℤ (pos 107) (bar.y +ℤ bar.h) ≡ true))
contains_iff_example = contains_iff bar (pos 60) (pos 107) bar-IsDrawable
