-- ===== src/Model/Backup/Names.antt =====
-- A key name reads back as its key (desktop/crates/opad-model/src/lib.rs).
use mathlib.Core.Path.{subst⁻¹}
use mathlib.Core.List.{reverse, reverse-cons, reverse-reverse}
use opad.Prelude.Text.{trim, trim_start, is_space, upper}
use opad.Model.Backup.{char_to_hid_usage, usage_of, hex_value, hex_digit, next_digit, hex_number}
use opad.Model.Backup.Export.{hid_usage_to_char, hex_digits, hex_letter, padded}
use opad.Prelude.{
  ℕ, zero, suc, ◌+◌, ◌-◌, ◌/◌, ◌%◌, ◌^◌, ◌<◌, ◌≤◌, ◌≡◌, ◌⊎◌, inl, inr, refl, ap, ◌∙◌, true, false,
  Option, some, List, [], ◌∷◌, ◌++◌, map, All, ◌==◌, if◌then◌else◌, arith, Bool-cases,
}

-- What `str::to_uppercase` does to an ASCII text.
unfoldable pub UppercasesAscii : (List ℕ → List ℕ) → Type 0
UppercasesAscii to_uppercase =
    (cs : List ℕ) → All (λ c. c ≤ 127) cs → to_uppercase cs ≡ map upper cs

-- An upper case hexadecimal digit.
abbrev IsDigit : ℕ → Type 0
IsDigit c = ((48 ≤ c) × (c ≤ 57)) ⊎ ((65 ≤ c) × (c ≤ 70))

hex_letter-IsDigit : (d : ℕ) → d < 16 → IsDigit (hex_letter d)
hex_letter-IsDigit d h = ground arith

hex_digit-hex_letter : (d : ℕ) → d < 16 → hex_digit (hex_letter d) ≡ some d
hex_digit-hex_letter d h = ground arith

hex_value-append :
    (acc : Option ℕ) (cs ds : List ℕ) → hex_value acc (cs ++ ds) ≡ hex_value (hex_value acc cs) ds
unfolding hex_value
hex_value-append acc [] ds = refl
hex_value-append acc (c ∷ cs) ds = hex_value-append (next_digit acc (hex_digit c)) cs ds

next_digit-split : (n : ℕ) → n < 2 ^ 32 → next_digit (some (n / 16)) (some (n % 16)) ≡ some n
next_digit-split n h = ground arith

hex_value-hex_digits :
    (fuel n : ℕ) → n < 16 ^ fuel → n < 2 ^ 32 → hex_value (some 0) (hex_digits fuel n) ≡ some n
unfolding hex_digits hex_value
hex_value-hex_digits zero n h b = ap some (omega arith)
hex_value-hex_digits (suc fuel) n h b =
    let rest = hex_value-hex_digits fuel (n / 16) (omega arith) (omega arith) in
    let joined =
      hex_value-append (some 0) (hex_digits fuel (n / 16)) (hex_letter (n % 16) ∷ [])
      ∙ ap (λ a. hex_value a (hex_letter (n % 16) ∷ [])) rest
      ∙ ap (next_digit (some (n / 16))) (hex_digit-hex_letter (n % 16) (omega arith))
      ∙ next_digit-split n b in
    elim (Bool-cases (n == 0)) [ inl e ↦ ground arith | inr e ↦ rw e joined ]

All-append : (P : ℕ → Type 0) (cs ds : List ℕ) → All P cs → All P ds → All P (cs ++ ds)
All-append P [] ds h k = k
All-append P (c ∷ cs) ds h k = (h.0, All-append P cs ds h.1 k)

All-map : {P Q : ℕ → Type 0} → ((c : ℕ) → P c → Q c) → (cs : List ℕ) → All P cs → All Q cs
All-map f [] h = tt
All-map f (c ∷ cs) h = (f c h.0, All-map f cs h.1)

All-reverse : (P : ℕ → Type 0) (cs : List ℕ) → All P cs → All P (reverse cs)
All-reverse P [] h = tt
All-reverse P (c ∷ cs) h =
    subst⁻¹ (All P) (reverse-cons c cs)
      (All-append P (reverse cs) (c ∷ []) (All-reverse P cs h.1) (h.0, tt))

hex_digits-IsDigit : (fuel n : ℕ) → All IsDigit (hex_digits fuel n)
unfolding hex_digits
hex_digits-IsDigit zero n = tt
hex_digits-IsDigit (suc fuel) n =
    let more =
      All-append IsDigit (hex_digits fuel (n / 16)) (hex_letter (n % 16) ∷ [])
        (hex_digits-IsDigit fuel (n / 16)) (hex_letter-IsDigit (n % 16) (omega arith), tt) in
    elim (Bool-cases (n == 0)) [ inl e ↦ rw e tt | inr e ↦ rw e more ]

trim_start-All : (cs : List ℕ) → All (λ c. is_space c ≡ false) cs → trim_start cs ≡ cs
trim_start-All [] h = refl
trim_start-All (c ∷ cs) h = ap (λ b. elim b [ true ↦ trim_start cs | false ↦ c ∷ cs ]) h.0

trim-All : (cs : List ℕ) → All (λ c. is_space c ≡ false) cs → trim cs ≡ cs
trim-All cs h =
    ap (λ x. reverse (trim_start (reverse x))) (trim_start-All cs h)
    ∙ ap reverse (trim_start-All (reverse cs) (All-reverse (λ c. is_space c ≡ false) cs h))
    ∙ reverse-reverse cs

-- A character of a key name: an ASCII one that is neither a space nor a lower case letter.
abbrev IsPlain : ℕ → Type 0
IsPlain c = (is_space c ≡ false) × (c ≤ 127)

plain_name :
    (to_uppercase : List ℕ → List ℕ) (cs : List ℕ)
    → UppercasesAscii to_uppercase
    → All IsPlain cs
    → to_uppercase (trim cs) ≡ map upper cs
unfolding UppercasesAscii
plain_name to_uppercase cs h k =
    ap to_uppercase (trim-All cs (All-map (λ c p. p.0) cs k)) ∙ h cs (All-map (λ c p. p.1) cs k)

IsDigit-IsPlain : (c : ℕ) → IsDigit c → IsPlain c
IsDigit-IsPlain c h = ground arith

upper-IsDigit : (cs : List ℕ) → All IsDigit cs → map upper cs ≡ cs
upper-IsDigit [] h = refl
upper-IsDigit (c ∷ cs) h =
    let same : upper c ≡ c = ground arith in
    ap (λ d. d ∷ map upper cs) same ∙ ap (◌∷◌ c) (upper-IsDigit cs h.1)

padded-IsDigit : (cs : List ℕ) → All IsDigit cs → All IsDigit (padded cs)
padded-IsDigit [] h = (inl (omega arith, omega arith), (inl (omega arith, omega arith), tt))
padded-IsDigit (c ∷ []) h = (inl (omega arith, omega arith), h)
padded-IsDigit (c ∷ d ∷ cs) h = h

hex_number-padded : (cs : List ℕ) → All IsDigit cs → hex_number (padded cs) ≡ hex_value (some 0) cs
unfolding hex_value
hex_number-padded [] h = refl
hex_number-padded (c ∷ []) h = refl
hex_number-padded (c ∷ d ∷ cs) h =
    let plus : (c == b'+') ≡ false = ground arith in
    ap (λ b. if b then hex_value (some 0) (d ∷ cs) else hex_value (some 0) (c ∷ d ∷ cs)) plus

name_read :
    (to_uppercase : List ℕ → List ℕ) (cs : List ℕ)
    → UppercasesAscii to_uppercase
    → All IsPlain cs
    → char_to_hid_usage to_uppercase cs ≡ usage_of (map upper cs)
unfolding char_to_hid_usage
name_read to_uppercase cs h k = ap usage_of (plain_name to_uppercase cs h k)

letter_read : (u : ℕ) → 0x04 ≤ u → u ≤ 0x1D → usage_of (map upper ((65 + (u - 4)) ∷ [])) ≡ some u
letter_read u a b = ground arith

digit_read :
    (u : ℕ) → 0x1E ≤ u → u ≤ 0x27 → usage_of (map upper ((48 + (u - 0x1E + 1) % 10) ∷ [])) ≡ some u
digit_read u a b = ground arith

hex_read :
    (u : ℕ) → u < 2 ^ 32 → usage_of (map upper (b'0' ∷ b'x' ∷ padded (hex_digits 8 u))) ≡ some u
hex_read u b =
    let digits = hex_digits-IsDigit 8 u in
    ap hex_number (upper-IsDigit (padded (hex_digits 8 u)) (padded-IsDigit (hex_digits 8 u) digits))
    ∙ hex_number-padded (hex_digits 8 u) digits
    ∙ hex_value-hex_digits 8 u (omega arith) b

letter-IsPlain : (u : ℕ) → 0x04 ≤ u → u ≤ 0x1D → IsPlain (65 + (u - 4))
letter-IsPlain u a b = ground arith

digit-IsPlain : (u : ℕ) → 0x1E ≤ u → u ≤ 0x27 → IsPlain (48 + (u - 0x1E + 1) % 10)
digit-IsPlain u a b = ground arith

hex-IsPlain : (u : ℕ) → All IsPlain (b'0' ∷ b'x' ∷ padded (hex_digits 8 u))
hex-IsPlain u = (
  (refl, omega arith),
  (
    (refl, omega arith),
    All-map IsDigit-IsPlain (padded (hex_digits 8 u))
        (padded-IsDigit (hex_digits 8 u) (hex_digits-IsDigit 8 u)),
  ),
)

usage_range :
    (u : ℕ) → ((0x04 ≤ u) × (u ≤ 0x1D)) ⊎ (((0x1E ≤ u) × (u ≤ 0x27)) ⊎ ((u < 4) ⊎ (0x27 < u)))
usage_range u = ground arith

letter_name : (u : ℕ) → 0x04 ≤ u → u ≤ 0x1D → hid_usage_to_char u ≡ (65 + (u - 4)) ∷ []
unfolding hid_usage_to_char
letter_name u a b = ground arith

digit_name : (u : ℕ) → 0x1E ≤ u → u ≤ 0x27 → hid_usage_to_char u ≡ (48 + (u - 0x1E + 1) % 10) ∷ []
unfolding hid_usage_to_char
digit_name u a b = ground arith

hex_name :
    (u : ℕ) → (u < 4) ⊎ (0x27 < u) → hid_usage_to_char u ≡ b'0' ∷ b'x' ∷ padded (hex_digits 8 u)
unfolding hid_usage_to_char
hex_name u a = ground arith

named_read :
    (to_uppercase : List ℕ → List ℕ) (usage : ℕ) (cs : List ℕ)
    → hid_usage_to_char usage ≡ cs
    → All IsPlain cs
    → UppercasesAscii to_uppercase
    → usage_of (map upper cs) ≡ some usage
    → char_to_hid_usage to_uppercase (hid_usage_to_char usage) ≡ some usage
named_read to_uppercase usage cs e k h r =
    ap (char_to_hid_usage to_uppercase) e ∙ name_read to_uppercase cs h k ∙ r

-- A key's name is read as that key, whatever `to_uppercase` does outside ASCII.
pub char_to_hid_usage-hid_usage_to_char :
    (to_uppercase : List ℕ → List ℕ) (usage : ℕ)
    → UppercasesAscii to_uppercase
    → usage < 2 ^ 32
    → char_to_hid_usage to_uppercase (hid_usage_to_char usage) ≡ some usage
char_to_hid_usage-hid_usage_to_char to_uppercase usage h b = elim (usage_range usage) [
  | inl r ↦
      named_read to_uppercase usage ((65 + (usage - 4)) ∷ []) (letter_name usage r.0 r.1)
        (letter-IsPlain usage r.0 r.1, tt) h (letter_read usage r.0 r.1)
  | inr (inl r) ↦
      named_read to_uppercase usage ((48 + (usage - 0x1E + 1) % 10) ∷ []) (digit_name usage r.0 r.1)
        (digit-IsPlain usage r.0 r.1, tt) h (digit_read usage r.0 r.1)
  | inr (inr r) ↦
      named_read to_uppercase usage (b'0' ∷ b'x' ∷ padded (hex_digits 8 usage)) (hex_name usage r)
        (hex-IsPlain usage) h (hex_read usage b)
]
