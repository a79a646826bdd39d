-- ===== src/Update/Version.antt =====
-- The order of versions (desktop/crates/opad-update/src/version.rs). A text is a list of code points,
-- whose order is that of the UTF-8 bytes.
pub mod Order
pub mod Runs
use Prim.Native.Nat.{compare, Ordering}
use opad.Prelude.Text.{trim}
use opad.Prelude.{
  ℕ, zero, suc, ◌+◌, ◌-◌, ◌*◌, ◌≤◌, ◌^◌, Bool, true, false, not, ◌&&◌, Option, none, some, List, [],
  ◌∷◌, ltb, leb, ◌==◌, if◌then◌else◌, then_some, unwrap_or, map, length,
}

abbrev pub is_digit : ℕ → Bool
is_digit c = leb b'0' c && leb c b'9'

-- `Ordering::then_with`
abbrev pub then_with : Ordering → Ordering → Ordering
then_with Ordering.eq o = o
then_with Ordering.lt o = Ordering.lt
then_with Ordering.gt o = Ordering.gt

-- `str::cmp`
unfoldable pub text_cmp : List ℕ → List ℕ → Ordering
text_cmp [] [] = Ordering.eq
text_cmp [] (c ∷ cs) = Ordering.lt
text_cmp (c ∷ cs) [] = Ordering.gt
text_cmp (c ∷ cs) (d ∷ ds) = then_with (compare c d) (text_cmp cs ds)

-- `trim_start_matches`
unfoldable pub drop_leading : ℕ → List ℕ → List ℕ
drop_leading x [] = []
drop_leading x (c ∷ cs) =
    let rest = drop_leading x cs in elim (c == x) [ true ↦ rest | false ↦ c ∷ cs ]

abbrev pub push_front : ℕ → Option (List ℕ × List ℕ) → Option (List ℕ × List ℕ)
push_front c none = none
push_front c (some (front, back)) = some (c ∷ front, back)

-- `split_once`
unfoldable pub split_once : ℕ → List ℕ → Option (List ℕ × List ℕ)
split_once x [] = none
split_once x (c ∷ cs) =
    let rest = push_front c (split_once x cs) in if c == x then some ([], cs) else rest

abbrev pub extend_first : ℕ → List (List ℕ) → List (List ℕ)
extend_first c [] = (c ∷ []) ∷ []
extend_first c (part ∷ parts) = (c ∷ part) ∷ parts

-- `split`, which has one part at least
unfoldable pub split_on : ℕ → List ℕ → List (List ℕ)
split_on x [] = [] ∷ []
split_on x (c ∷ cs) = let rest = split_on x cs in if c == x then [] ∷ rest else extend_first c rest

unfoldable pub digits_value : ℕ → List ℕ → ℕ
digits_value acc [] = acc
digits_value acc (c ∷ cs) = digits_value (acc * 10 + (c - b'0')) cs

abbrev pub all_digits : List ℕ → Bool
all_digits [] = true
all_digits (c ∷ cs) = is_digit c && all_digits cs

abbrev pub is_empty_text : List ℕ → Bool
is_empty_text [] = true
is_empty_text (c ∷ cs) = false

-- Digits that fit in a `u64`. No sign comes here: `+` and `-` have been split off.
unfoldable pub numeric : List ℕ → Option ℕ
unfolding digits_value
numeric id =
    then_some (not (is_empty_text id) && (all_digits id && ltb (digits_value 0 id) (2 ^ 64)))
      (digits_value 0 id)

abbrev pub fst_or : List ℕ → Option (List ℕ × List ℕ) → List ℕ
fst_or v none = v
fst_or v (some (front, back)) = front

abbrev pub snd_of : Option (List ℕ × List ℕ) → Option (List ℕ)
snd_of none = none
snd_of (some (front, back)) = some back

-- The core's numbers, and the pre-release part.
unfoldable pub split : List ℕ → List ℕ × Option (List ℕ)
unfolding drop_leading split_once split_on numeric
split text =
    let v = drop_leading b'v' (trim text) in
    let plain = fst_or v (split_once b'+' v) in
    let cut = split_once b'-' plain in
    (map (λ p. unwrap_or (numeric p) 0) (split_on b'.' (fst_or plain cut)), snd_of cut)

-- The leading run of characters that are digits, or of such as are not.
unfoldable pub run_of : Bool → List ℕ → List ℕ × List ℕ
run_of digits [] = ([], [])
run_of digits (c ∷ cs) =
    let (run, rest) = run_of digits cs in
    let same = if is_digit c then digits else not digits in
    elim same [ true ↦ (c ∷ run, rest) | false ↦ ([], c ∷ cs) ]

abbrev pub starts_digit : List ℕ → Bool
starts_digit [] = false
starts_digit (c ∷ cs) = is_digit c

unfoldable pub next_run : List ℕ → List ℕ × List ℕ
unfolding run_of
next_run s = run_of (starts_digit s) s

abbrev pub both_numeric : Option ℕ → Option ℕ → Ordering → Ordering
both_numeric (some m) (some n) texts = then_with (compare m n) texts
both_numeric _ _ texts = texts

-- Two runs, at least one of them not empty. (`text_cmp` puts the empty one first.)
unfoldable pub runs_ordering : List ℕ → List ℕ → Ordering
runs_ordering [] ys = text_cmp [] ys
runs_ordering xs [] = text_cmp xs []
runs_ordering xs ys = both_numeric (numeric xs) (numeric ys) (text_cmp xs ys)

-- The loop goes on where two runs are the same; each run is a character or more. Out of fuel it has no
-- answer.
unfoldable pub alphanumeric_loop : ℕ → List ℕ → List ℕ → Option Ordering
alphanumeric_loop zero a b = none
alphanumeric_loop (suc fuel) [] [] = some Ordering.eq
alphanumeric_loop (suc fuel) a b =
    let (x, a_rest) = next_run a in
    let (y, b_rest) = next_run b in
    let rest = alphanumeric_loop fuel a_rest b_rest in
    elim (runs_ordering x y) [
      | Ordering.eq ↦ rest
      | Ordering.lt ↦ some Ordering.lt
      | Ordering.gt ↦ some Ordering.gt
    ]

unfoldable pub alphanumeric_ordering : List ℕ → List ℕ → Ordering
alphanumeric_ordering a b =
    unwrap_or (alphanumeric_loop (suc (length a + length b)) a b) Ordering.eq

abbrev pub numbers_first : Option ℕ → Option ℕ → Ordering → Ordering
numbers_first (some x) (some y) texts = compare x y
numbers_first (some x) none texts = Ordering.lt
numbers_first none (some y) texts = Ordering.gt
numbers_first none none texts = texts

unfoldable pub identifier_ordering : List ℕ → List ℕ → Ordering
identifier_ordering a b = numbers_first (numeric a) (numeric b) (alphanumeric_ordering a b)

unfoldable pub identifiers_ordering : List (List ℕ) → List (List ℕ) → Ordering
identifiers_ordering [] [] = Ordering.eq
identifiers_ordering [] (y ∷ ys) = Ordering.lt
identifiers_ordering (x ∷ xs) [] = Ordering.gt
identifiers_ordering (x ∷ xs) (y ∷ ys) =
    then_with (identifier_ordering x y) (identifiers_ordering xs ys)

unfoldable pub pre_release_ordering : List ℕ → List ℕ → Ordering
pre_release_ordering a b = identifiers_ordering (split_on b'.' a) (split_on b'.' b)

-- The cores, the shorter one filled up with zeros.
unfoldable pub core_ordering : List ℕ → List ℕ → Ordering
core_ordering [] [] = Ordering.eq
core_ordering (x ∷ xs) [] = then_with (compare x 0) (core_ordering xs [])
core_ordering [] (y ∷ ys) = then_with (compare 0 y) (core_ordering [] ys)
core_ordering (x ∷ xs) (y ∷ ys) = then_with (compare x y) (core_ordering xs ys)

-- A release comes after its own pre-releases.
abbrev pub releases_last : Option (List ℕ) → Option (List ℕ) → Ordering
releases_last none none = Ordering.eq
releases_last none (some y) = Ordering.gt
releases_last (some x) none = Ordering.lt
releases_last (some x) (some y) = pre_release_ordering x y

unfoldable pub ordering : List ℕ → List ℕ → Ordering
ordering a b =
    let (a_core, a_pre) = split a in
    let (b_core, b_pre) = split b in
    then_with (core_ordering a_core b_core) (releases_last a_pre b_pre)

abbrev pub is_greater : Ordering → Bool
is_greater Ordering.gt = true
is_greater _ = false

unfoldable pub is_newer : List ℕ → List ℕ → Bool
is_newer available installed = is_greater (ordering available installed)
