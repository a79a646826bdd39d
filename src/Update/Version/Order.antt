-- ===== src/Update/Version/Order.antt =====
-- The order of versions is antisymmetric: the two directions always agree.
use Prim.Native.Nat.{compare, Ordering}
use opad.Update.Version.{
  text_cmp, then_with, numeric, runs_ordering, both_numeric, next_run, alphanumeric_loop,
  alphanumeric_ordering, numbers_first, identifier_ordering, identifiers_ordering, split_on,
  pre_release_ordering, core_ordering, releases_last, ordering, is_newer, split,
}
use opad.Prelude.{
  unwrap_or, ℕ, zero, suc, ◌+◌, ◌≡◌, refl, sym, ap, ◌∙◌, false, Option, none, some, List, [], ◌∷◌,
  length, arith, ◌&&◌,
}

abbrev pub reverse : Ordering → Ordering
reverse Ordering.lt = Ordering.gt
reverse Ordering.eq = Ordering.eq
reverse Ordering.gt = Ordering.lt

reverse-then : (o p : Ordering) → reverse (then_with o p) ≡ then_with (reverse o) (reverse p)
reverse-then Ordering.lt p = refl
reverse-then Ordering.eq p = refl
reverse-then Ordering.gt p = refl

then_same :
    (o o' p p' : Ordering)
    → o' ≡ reverse o
    → p' ≡ reverse p
    → then_with o' p' ≡ reverse (then_with o p)
then_same o o' p p' h k =
    ap (λ x. then_with x p') h ∙ (ap (then_with (reverse o)) k ∙ sym (reverse-then o p))

compare_flip : (m n : ℕ) → compare n m ≡ reverse (compare m n)
compare_flip m n = ground arith

text_flip : (a b : List ℕ) → text_cmp b a ≡ reverse (text_cmp a b)
unfolding text_cmp
text_flip [] [] = refl
text_flip [] (d ∷ ds) = refl
text_flip (c ∷ cs) [] = refl
text_flip (c ∷ cs) (d ∷ ds) = then_same _ _ _ _ (compare_flip c d) (text_flip cs ds)

both_flip :
    (x y : Option ℕ) (o o' : Ordering)
    → o' ≡ reverse o
    → both_numeric y x o' ≡ reverse (both_numeric x y o)
both_flip none none o o' h = h
both_flip none (some n) o o' h = h
both_flip (some m) none o o' h = h
both_flip (some m) (some n) o o' h = then_same _ _ _ _ (compare_flip m n) h

runs_flip : (xs ys : List ℕ) → runs_ordering ys xs ≡ reverse (runs_ordering xs ys)
unfolding runs_ordering
runs_flip [] [] = text_flip [] []
runs_flip [] (y ∷ ys) = text_flip [] (y ∷ ys)
runs_flip (x ∷ xs) [] = text_flip (x ∷ xs) []
runs_flip (x ∷ xs) (y ∷ ys) =
    both_flip (numeric (x ∷ xs)) (numeric (y ∷ ys)) _ _ (text_flip (x ∷ xs) (y ∷ ys))

numbers_flip :
    (x y : Option ℕ) (o o' : Ordering)
    → o' ≡ reverse o
    → numbers_first y x o' ≡ reverse (numbers_first x y o)
numbers_flip none none o o' h = h
numbers_flip none (some n) o o' h = refl
numbers_flip (some m) none o o' h = refl
numbers_flip (some m) (some n) o o' h = compare_flip m n

abbrev reversed : Option Ordering → Option Ordering
reversed none = none
reversed (some o) = some (reverse o)

unwrap-reversed :
    (o : Option Ordering) → unwrap_or (reversed o) Ordering.eq ≡ reverse (unwrap_or o Ordering.eq)
unwrap-reversed none = refl
unwrap-reversed (some o) = refl

loop_flip : (n : ℕ) (a b : List ℕ) → alphanumeric_loop n b a ≡ reversed (alphanumeric_loop n a b)
unfolding alphanumeric_loop
loop_flip zero a b = refl
loop_flip (suc n) [] [] = refl
loop_flip (suc n) [] (d ∷ ds) = ground (
  arith,
  runs_flip (next_run []).0 (next_run (d ∷ ds)).0,
  loop_flip n (next_run []).1 (next_run (d ∷ ds)).1,
)
loop_flip (suc n) (c ∷ cs) [] = ground (
  arith,
  runs_flip (next_run (c ∷ cs)).0 (next_run []).0,
  loop_flip n (next_run (c ∷ cs)).1 (next_run []).1,
)
loop_flip (suc n) (c ∷ cs) (d ∷ ds) = ground (
  arith,
  runs_flip (next_run (c ∷ cs)).0 (next_run (d ∷ ds)).0,
  loop_flip n (next_run (c ∷ cs)).1 (next_run (d ∷ ds)).1,
)

alphanumeric_flip : (a b : List ℕ) → alphanumeric_ordering b a ≡ reverse (alphanumeric_ordering a b)
unfolding alphanumeric_ordering
alphanumeric_flip a b =
    let swap : suc (length b + length a) ≡ suc (length a + length b) = omega arith in
    ap (λ o. unwrap_or o Ordering.eq)
      (ap (λ n. alphanumeric_loop n b a) swap ∙ loop_flip (suc (length a + length b)) a b)
    ∙ unwrap-reversed (alphanumeric_loop (suc (length a + length b)) a b)

identifier_flip : (a b : List ℕ) → identifier_ordering b a ≡ reverse (identifier_ordering a b)
unfolding identifier_ordering
identifier_flip a b = numbers_flip (numeric a) (numeric b) _ _ (alphanumeric_flip a b)

identifiers_flip :
    (xs ys : List (List ℕ)) → identifiers_ordering ys xs ≡ reverse (identifiers_ordering xs ys)
unfolding identifiers_ordering
identifiers_flip [] [] = refl
identifiers_flip [] (y ∷ ys) = refl
identifiers_flip (x ∷ xs) [] = refl
identifiers_flip (x ∷ xs) (y ∷ ys) =
    then_same _ _ _ _ (identifier_flip x y) (identifiers_flip xs ys)

core_flip : (xs ys : List ℕ) → core_ordering ys xs ≡ reverse (core_ordering xs ys)
unfolding core_ordering
core_flip [] [] = refl
core_flip [] (y ∷ ys) = then_same _ _ _ _ (compare_flip 0 y) (core_flip [] ys)
core_flip (x ∷ xs) [] = then_same _ _ _ _ (compare_flip x 0) (core_flip xs [])
core_flip (x ∷ xs) (y ∷ ys) = then_same _ _ _ _ (compare_flip x y) (core_flip xs ys)

releases_flip : (p q : Option (List ℕ)) → releases_last q p ≡ reverse (releases_last p q)
unfolding pre_release_ordering
releases_flip none none = refl
releases_flip none (some y) = refl
releases_flip (some x) none = refl
releases_flip (some x) (some y) = identifiers_flip (split_on b'.' x) (split_on b'.' y)

-- Comparing two versions the other way round gives the opposite answer.
pub ordering_flip : (a b : List ℕ) → ordering b a ≡ reverse (ordering a b)
unfolding ordering
ordering_flip a b =
    then_same _ _ _ _ (core_flip (split a).0 (split b).0) (releases_flip (split a).1 (split b).1)

-- Of two versions at most one is newer than the other, and none is newer than itself.
pub is_newer_asym : (a b : List ℕ) → (is_newer a b && is_newer b a) ≡ false
unfolding is_newer
is_newer_asym a b = ground (arith, ordering_flip a b)
