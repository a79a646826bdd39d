-- ===== src/Model/Animations.antt =====
-- The result animations picked per grade (desktop/crates/opad-model/src/result_anim.rs).
use opad.Prelude.Text.{reads_as}
use opad.Prelude.{ℕ, String, Option, some, none, ◌||◌, if◌then◌else◌}

pub data Trigger : Type 0 where
  ss s a b c d : Trigger

-- `[u32; 6]`, by `Trigger::index`
pub record ResultAnimations : Type 0 where
  pub for_ss : ℕ
  pub for_s : ℕ
  pub for_a : ℕ
  pub for_b : ℕ
  pub for_c : ℕ
  pub for_d : ℕ

abbrev pub default_animations : ResultAnimations
default_animations = record { for_ss = 3; for_s = 3; for_a = 1; for_b = 1; for_c = 2; for_d = 2 }

unfoldable pub get_animation : ResultAnimations → Trigger → ℕ
get_animation r ss = r.for_ss
get_animation r s = r.for_s
get_animation r a = r.for_a
get_animation r b = r.for_b
get_animation r c = r.for_c
get_animation r d = r.for_d

unfoldable pub set_animation : ResultAnimations → Trigger → ℕ → ResultAnimations
set_animation r ss id = record r { for_ss = id }
set_animation r s id = record r { for_s = id }
set_animation r a id = record r { for_a = id }
set_animation r b id = record r { for_b = id }
set_animation r c id = record r { for_c = id }
set_animation r d id = record r { for_d = id }

-- The trigger for tosu's rank.
unfoldable pub from_grade : String → Option Trigger
from_grade rank =
    if reads_as rank "X" || (reads_as rank "XH" || (reads_as rank "SS" || reads_as rank "SSH"))
    then some ss
    else (if reads_as rank "S" || reads_as rank "SH"
        then some s
        else (if reads_as rank "A"
            then some a
            else (if reads_as rank "B"
                then some b
                else (if reads_as rank "C"
                    then some c
                    else (if reads_as rank "D" then some d else none)))))
