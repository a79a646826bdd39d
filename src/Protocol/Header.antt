-- ===== src/Protocol/Header.antt =====
-- The four header bytes written and read back (`encode_frame`, `header`).
use opad.Prelude.{ℕ, ◌≤◌, ◌≡◌, refl, true, Option, some, List, [], ◌∷◌, ◌++◌, arith, length}
use opad.Protocol.{
  Framing, marked, legacy, accepts, header_bytes, max_payload_bytes, legacy_min_payload, header_of,
  header,
}

-- The lengths that a header of this framing may announce.
abbrev pub Plausible : Framing → ℕ → Type 0
Plausible marked n = n ≤ max_payload_bytes
Plausible legacy n = (legacy_min_payload ≤ n) × (n ≤ max_payload_bytes)

pub header-header_of :
    (f : Framing) (n : ℕ) (rest : List ℕ) (accept : Option Framing)
    → Plausible f n
    → accepts f accept ≡ true
    → header (header_of f n ++ rest) accept ≡ some (f, n)
unfolding header header_of
header-header_of marked n rest accept p a = ground arith
header-header_of legacy n rest accept p a = ground arith

pub length-header_of : (f : Framing) (n : ℕ) → length (header_of f n) ≡ header_bytes
unfolding header_of
length-header_of marked n = refl
length-header_of legacy n = refl

-- A header is read only where its framing is accepted and its length is plausible.
pub header-Plausible :
    (buf : List ℕ) (accept : Option Framing) (f : Framing) (n : ℕ)
    → header buf accept ≡ some (f, n)
    → Plausible f n × (accepts f accept ≡ true)
unfolding header
header-Plausible [] accept f n h = ground arith
header-Plausible (a ∷ []) accept f n h = ground arith
header-Plausible (a ∷ b ∷ []) accept f n h = ground arith
header-Plausible (a ∷ b ∷ c ∷ []) accept f n h = ground arith
header-Plausible (a ∷ b ∷ c ∷ d ∷ r) accept f n h = ground arith
