-- ===== src/Update/Version/Runs.antt =====
-- The comparison of two identifiers run by run ends: every round takes a character at least.
use opad.Update.Version.{run_of, next_run, runs_ordering, alphanumeric_loop, alphanumeric_ordering}
use Prim.Native.Nat.{Ordering}
use opad.Prelude.{
  unwrap_or, Option, some, none, ◌∙◌, ℕ, zero, suc, ◌+◌, ◌≤◌, ◌<◌, ◌≡◌, refl, Bool, true, false,
  List, [], ◌∷◌, length, arith,
}

run-shrinks : (digits : Bool) (s : List ℕ) → length (run_of digits s).1 ≤ length s
unfolding run_of
run-shrinks digits [] = omega arith
run-shrinks digits (c ∷ cs) = ground (arith, run-shrinks digits cs)

next-shrinks : (c : ℕ) (cs : List ℕ) → length (next_run (c ∷ cs)).1 ≤ length cs
unfolding next_run run_of
next-shrinks c cs = ground (arith, run-shrinks true cs, run-shrinks false cs)

next-nil : (next_run []).1 ≡ []
unfolding next_run run_of
next-nil = refl

-- More rounds than characters change nothing.
more_rounds :
    (n m : ℕ) (a b : List ℕ)
    → length a + length b < n
    → length a + length b < m
    → alphanumeric_loop n a b ≡ alphanumeric_loop m a b
unfolding alphanumeric_loop
more_rounds zero m a b h k = elim h [ ]
more_rounds (suc n) zero a b h k = elim k [ ]
more_rounds (suc n) (suc m) [] [] h k = refl
more_rounds (suc n) (suc m) [] (d ∷ ds) h k =
    let a' = (next_run []).1 in
    let b' = (next_run (d ∷ ds)).1 in
    let e : length a' ≡ 0 = ground (arith, next-nil) in
    ground (
      arith,
      more_rounds n m a' b' (omega (arith, e, next-shrinks d ds))
          (omega (arith, e, next-shrinks d ds)),
    )
more_rounds (suc n) (suc m) (c ∷ cs) [] h k =
    let a' = (next_run (c ∷ cs)).1 in
    let b' = (next_run []).1 in
    let e : length b' ≡ 0 = ground (arith, next-nil) in
    ground (
      arith,
      more_rounds n m a' b' (omega (arith, e, next-shrinks c cs))
          (omega (arith, e, next-shrinks c cs)),
    )
more_rounds (suc n) (suc m) (c ∷ cs) (d ∷ ds) h k =
    let a' = (next_run (c ∷ cs)).1 in
    let b' = (next_run (d ∷ ds)).1 in
    ground (
      arith,
      more_rounds n m a' b' (omega (arith, next-shrinks c cs, next-shrinks d ds))
          (omega (arith, next-shrinks c cs, next-shrinks d ds)),
    )

answered :
    (o : Ordering) {rest : Option Ordering}
    → ((p : Ordering) × (rest ≡ some p))
    → (p : Ordering) × (elim o [
      | Ordering.eq ↦ rest
      | Ordering.lt ↦ some Ordering.lt
      | Ordering.gt ↦ some Ordering.gt
    ]
        ≡ some p)
answered Ordering.eq r = r
answered Ordering.lt r = (Ordering.lt, refl)
answered Ordering.gt r = (Ordering.gt, refl)

-- With more rounds than characters the loop comes to an answer.
loop_ends :
    (n : ℕ) (a b : List ℕ)
    → length a + length b < n
    → (o : Ordering) × (alphanumeric_loop n a b ≡ some o)
unfolding alphanumeric_loop
loop_ends zero a b h = elim h [ ]
loop_ends (suc n) [] [] h = (Ordering.eq, refl)
loop_ends (suc n) [] (d ∷ ds) h =
    let e : length (next_run []).1 ≡ 0 = ground (arith, next-nil) in
    answered (runs_ordering (next_run []).0 (next_run (d ∷ ds)).0)
      (loop_ends n (next_run []).1 (next_run (d ∷ ds)).1 (omega (arith, e, next-shrinks d ds)))
loop_ends (suc n) (c ∷ cs) [] h =
    let e : length (next_run []).1 ≡ 0 = ground (arith, next-nil) in
    answered (runs_ordering (next_run (c ∷ cs)).0 (next_run []).0)
      (loop_ends n (next_run (c ∷ cs)).1 (next_run []).1 (omega (arith, e, next-shrinks c cs)))
loop_ends (suc n) (c ∷ cs) (d ∷ ds) h =
    answered (runs_ordering (next_run (c ∷ cs)).0 (next_run (d ∷ ds)).0) (
      loop_ends n (next_run (c ∷ cs)).1 (next_run (d ∷ ds)).1
        (omega (arith, next-shrinks c cs, next-shrinks d ds)))

some_answer : (o : Option Ordering) (p : Ordering) → o ≡ some p → o ≡ some (unwrap_or o Ordering.eq)
some_answer none p h = ground arith
some_answer (some o) p h = refl

-- The loop ends: with any fuel above the number of characters it has an answer, and that answer is the
-- order of the two identifiers.
pub alphanumeric_loop_fuel :
    (n : ℕ) (a b : List ℕ)
    → length a + length b < n
    → alphanumeric_loop n a b ≡ some (alphanumeric_ordering a b)
unfolding alphanumeric_ordering
alphanumeric_loop_fuel n a b h =
    let enough : length a + length b < suc (length a + length b) = omega arith in
    let (o, e) = loop_ends (suc (length a + length b)) a b enough in
    more_rounds n (suc (length a + length b)) a b h enough
    ∙ some_answer (alphanumeric_loop (suc (length a + length b)) a b) o e
