-- ===== src/Prelude/Text.antt =====
-- Texts by their code points, as `str::trim` and `to_ascii_uppercase` read them.
use Prim.Native.Char.{code}
use Prim.Native.String.{String}
use mathlib.Core.Bool.{Bool, true, false, ◌&&◌, ◌||◌}
use mathlib.Core.List.{List, [], ◌∷◌, map, reverse}
use Prim.Native.Nat.{ℕ, ◌-◌}
use opad.Prelude.Tests.{leb, ◌==◌, if◌then◌else◌}

abbrev pub codes : String → List ℕ
codes String.[] = []
codes (String.◌∷◌ c s) = code c ∷ codes s

-- Unicode's `White_Space`
abbrev pub is_space : ℕ → Bool
is_space c =
    (leb 9 c && leb c 13)
    || (c == 32
        || (c == 0x85
            || (c == 0xA0
                || (c == 0x1680
                    || ((leb 0x2000 c && leb c 0x200A)
                        || (c == 0x2028
                            || (c == 0x2029 || (c == 0x202F || (c == 0x205F || c == 0x3000)))))))))

abbrev pub trim_start : List ℕ → List ℕ
trim_start [] = []
trim_start (c ∷ cs) = let rest = trim_start cs in elim (is_space c) [ true ↦ rest | false ↦ c ∷ cs ]

abbrev pub trim : List ℕ → List ℕ
trim cs = reverse (trim_start (reverse (trim_start cs)))

-- `s.trim().is_empty()`
abbrev pub is_blank : String → Bool
is_blank s = elim (trim_start (codes s)) [ [] ↦ true | _ ∷ _ ↦ false ]

abbrev pub upper : ℕ → ℕ
upper c = if leb b'a' c && leb c b'z' then c - 32 else c

abbrev pub same_codes : List ℕ → List ℕ → Bool
same_codes [] [] = true
same_codes (a ∷ as') (b ∷ bs) = a == b && same_codes as' bs
same_codes _ _ = false

-- `s.trim().to_ascii_uppercase() == t`
abbrev pub reads_as : String → String → Bool
reads_as s t = same_codes (map upper (trim (codes s))) (codes t)
