-- ===== src/Protocol/Resync.antt =====
-- Resynchronisation (`resync`): what it drops, and what it stops at.
use opad.Prelude.{
  ◌≢◌, ℕ, zero, suc, ◌≤◌, ◌<◌, ◌≡◌, refl, ap, ◌∙◌, inl, inr, Bool-cases, Option-cases, false,
  Option, none, some, List, [], ◌∷◌, ◌++◌, arith, ltb, ◌==◌, length, length-drop, lt→ltb, ltb→lt,
  not_ltb→le, drop, All,
}
use opad.Protocol.{Framing, marked, legacy, header_bytes, header, seek, jump, resync_loop, resync}

pub length-seek-le : (buf : List ℕ) → length (seek buf) ≤ length buf
unfolding seek
length-seek-le [] = omega arith
length-seek-le (b ∷ bs) = ground (arith, length-seek-le bs)

pub length-jump-le :
    (accept : Option Framing) (buf : List ℕ) → length (jump accept buf) ≤ length buf
length-jump-le accept buf = ground (arith, length-seek-le buf)

-- One round on a buffer too short to hold a header.
pub resync_loop_short :
    (fuel : ℕ) (buf : List ℕ) (accept : Option Framing)
    → length (jump accept buf) < header_bytes
    → resync_loop (suc fuel) buf accept ≡ (jump accept buf, none)
unfolding resync_loop
resync_loop_short fuel buf accept h = rw (lt→ltb _ _ h)

pub resync_loop_found :
    (fuel : ℕ) (buf : List ℕ) (accept : Option Framing) (f : Framing) (n : ℕ)
    → header_bytes ≤ length (jump accept buf)
    → header (jump accept buf) accept ≡ some (f, n)
    → resync_loop (suc fuel) buf accept ≡ (jump accept buf, some (f, n))
unfolding resync_loop
resync_loop_found fuel buf accept f n long h = ground arith

pub resync_loop_skip :
    (fuel : ℕ) (buf : List ℕ) (accept : Option Framing)
    → header_bytes ≤ length (jump accept buf)
    → header (jump accept buf) accept ≡ none
    → resync_loop (suc fuel) buf accept ≡ resync_loop fuel (drop 1 (jump accept buf)) accept
unfolding resync_loop
resync_loop_skip fuel buf accept long h = ground arith

-- How one call ends: with a header at the front, or with too little to tell.
unfoldable pub Stops : Option Framing → List ℕ × Option (Framing × ℕ) → Type 0
Stops accept (buf, none) = length buf < header_bytes
Stops accept (buf, some (f, n)) = (header_bytes ≤ length buf) × (header buf accept ≡ some (f, n))

-- `s` is left of a buffer after dropping bytes at which no acceptable header starts.
pub data Drops (accept : Option Framing) (s : List ℕ) : List ℕ → Type 0 where
  kept : Drops accept s s
  skip :
      (b : ℕ) (bs : List ℕ)
      → header (b ∷ bs) accept ≡ none
      → Drops accept s bs
      → Drops accept s (b ∷ bs)

Drops-trans :
    {accept : Option Framing} {s t u : List ℕ}
    → Drops accept s t
    → Drops accept t u
    → Drops accept s u
Drops-trans d kept = d
Drops-trans d (skip b bs h e) = skip b bs h (Drops-trans d e)

header_unmarked : (b : ℕ) (bs : List ℕ) → (b == 0xAA) ≡ false → header (b ∷ bs) (some marked) ≡ none
unfolding header
header_unmarked b [] h = refl
header_unmarked b (c ∷ []) h = refl
header_unmarked b (c ∷ d ∷ []) h = refl
header_unmarked b (c ∷ d ∷ e ∷ r) h = ground arith

seek-Drops : (buf : List ℕ) → Drops (some marked) (seek buf) buf
unfolding seek
seek-Drops [] = kept
seek-Drops (b ∷ bs) = elim (Bool-cases (b == 0xAA)) [
  | inl e ↦ rw (e, seek) kept
  | inr e ↦ rw (e, seek) (skip b bs (header_unmarked b bs e) (seek-Drops bs))
]

jump-Drops : (accept : Option Framing) (buf : List ℕ) → Drops accept (jump accept buf) buf
jump-Drops none buf = kept
jump-Drops (some marked) buf = seek-Drops buf
jump-Drops (some legacy) buf = kept

drop_one-Drops :
    (accept : Option Framing) (buf : List ℕ)
    → header buf accept ≡ none
    → Drops accept (drop 1 buf) buf
drop_one-Drops accept [] h = kept
drop_one-Drops accept (b ∷ bs) h = skip b bs h kept

-- What a run of the loop from `buf` promises of its result.
unfoldable pub Scanned : Option Framing → List ℕ → List ℕ × Option (Framing × ℕ) → Type 0
Scanned accept buf r = Stops accept r × Drops accept r.0 buf

loop-Scanned :
    (fuel : ℕ) (buf : List ℕ) (accept : Option Framing)
    → length buf < fuel
    → Scanned accept buf (resync_loop fuel buf accept)
unfolding Stops Scanned
loop-Scanned zero buf accept h = elim h [ ]
loop-Scanned (suc fuel) buf accept h =
    elim (Bool-cases (ltb (length (jump accept buf)) header_bytes)) [
      | inl short ↦
          rw (resync_loop_short fuel buf accept (ltb→lt _ _ short))
            (ltb→lt _ _ short, jump-Drops accept buf)
      | inr long ↦ elim (Option-cases (header (jump accept buf) accept)) [
        | inl missing ↦ rw (resync_loop_skip fuel buf accept (not_ltb→le _ _ long) missing) (
            let ih = loop-Scanned fuel (drop 1 (jump accept buf)) accept (
              omega (
                arith,
                length-drop 1 (jump accept buf),
                length-jump-le accept buf,
                not_ltb→le _ _ long,
              )) in
            (
              ih.0,
              Drops-trans (Drops-trans ih.1 (drop_one-Drops accept (jump accept buf) missing))
                  (jump-Drops accept buf),
            ))
        | inr ((f, n), found) ↦
            rw (resync_loop_found fuel buf accept f n (not_ltb→le _ _ long) found)
              ((not_ltb→le _ _ long, found), jump-Drops accept buf)
      ]
    ]

-- `resync` stops at an acceptable header, or at fewer bytes than a header has, and every byte that
-- it dropped on the way stood where no acceptable header starts.
pub resync-Scanned :
    (buf : List ℕ) (accept : Option Framing) → Scanned accept buf (resync buf accept)
unfolding resync
resync-Scanned buf accept = loop-Scanned (suc (length buf)) buf accept (omega arith)

pub Drops-le :
    {accept : Option Framing} {s buf : List ℕ} → Drops accept s buf → length s ≤ length buf
Drops-le kept = omega arith
Drops-le (skip b bs h d) = omega (arith, Drops-le d)

-- A buffer that starts with an acceptable header is left as it is.
pub resync_at_header :
    (buf : List ℕ) (accept : Option Framing) (f : Framing) (n : ℕ)
    → header_bytes ≤ length buf
    → header buf accept ≡ some (f, n)
    → jump accept buf ≡ buf
    → resync buf accept ≡ (buf, some (f, n))
unfolding resync
resync_at_header buf accept f n long found still =
    resync_loop_found (length buf) buf accept f n (rw still long) (rw still found)
    ∙ ap (λ b. (b, some (f, n))) still

-- Bytes in front of a marker byte are passed over where only markers are accepted.
seek-append : (junk bs : List ℕ) → All (λ b. b ≢ 0xAA) junk → seek (junk ++ 0xAA ∷ bs) ≡ 0xAA ∷ bs
unfolding seek
seek-append [] bs h = refl
seek-append (b ∷ junk) bs (h, hs) = ground (arith, seek-append junk bs hs)

pub resync_junk :
    (junk bs : List ℕ) (n : ℕ)
    → All (λ b. b ≢ 0xAA) junk
    → header_bytes ≤ suc (length bs)
    → header (0xAA ∷ bs) (some marked) ≡ some (marked, n)
    → resync (junk ++ 0xAA ∷ bs) (some marked) ≡ (0xAA ∷ bs, some (marked, n))
unfolding resync
resync_junk junk bs n clean long found =
    let e = seek-append junk bs clean in
    resync_loop_found (length (junk ++ 0xAA ∷ bs)) (junk ++ 0xAA ∷ bs) (some marked) marked n
      (rw e long) (rw e found)
    ∙ ap (λ b. (b, some (marked, n))) e

pub resync_short :
    (buf : List ℕ) (accept : Option Framing)
    → length (jump accept buf) < header_bytes
    → resync buf accept ≡ (jump accept buf, none)
unfolding resync
resync_short buf accept h = resync_loop_short (length buf) buf accept h
