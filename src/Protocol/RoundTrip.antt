-- ===== src/Protocol/RoundTrip.antt =====
-- A frame written by `encode_frame` and read by `decode_frame`, whole and in part.
use opad.Prelude.{
  ◌≢◌, All, ℕ, suc, ◌+◌, ◌≤◌, ◌<◌, ◌≡◌, refl, ap, sym, ◌∙◌, inl, inr, Bool-cases, true, Option,
  none, some, List, [], ◌∷◌, ◌++◌, arith, ltb, length, length-append, ltb→lt, not_ltb→le, drop,
  take-length, drop-length, Result, ok, err, append_assoc,
}
use opad.Protocol.{
  Framing, marked, legacy, accepts, header_bytes, max_payload_bytes, Codec, header_of, jump, resync,
  encode_frame, read_payload, decode_frame, legacy_min_payload, seek,
}
use opad.Protocol.Header.{Plausible, header-header_of, length-header_of}
use opad.Protocol.Resync.{resync_at_header, resync_junk, resync_short}

-- A list that two splits share, cut at the shorter one.
split_front :
    (h front p back : List ℕ)
    → front ++ back ≡ h ++ p
    → length h ≤ length front
    → (part : List ℕ) × (front ≡ h ++ part) × (p ≡ part ++ back)
split_front [] front p back eq le = (front, refl, sym eq)
split_front (a ∷ h) [] p back eq le = elim le [ ]
split_front (a ∷ h) (b ∷ front) p back eq le =
    let (part, here, there) = split_front h front p back (cc) (omega arith) in (part, cc, there)

-- The start of a frame is never skipped.
jump_front :
    (f : Framing) (n : ℕ) (front back payload : List ℕ) (accept : Option Framing)
    → accepts f accept ≡ true
    → front ++ back ≡ header_of f n ++ payload
    → jump accept front ≡ front
unfolding header_of seek
jump_front f n front back payload none a eq = refl
jump_front legacy n front back payload (some marked) a eq = cc
jump_front marked n [] back payload (some marked) a eq = refl
jump_front marked n (b ∷ front) back payload (some marked) a eq = ground arith
jump_front f n front back payload (some legacy) a eq = refl

junk_header :
    (junk : List ℕ) (n : ℕ) (rest : List ℕ)
    → All (λ b. b ≢ 0xAA) junk
    → n ≤ max_payload_bytes
    → resync (junk ++ (header_of marked n ++ rest)) (some marked)
      ≡ (header_of marked n ++ rest, some (marked, n))
unfolding header_of
junk_header junk n rest clean hi =
    resync_junk junk _ n clean (omega arith) (header-header_of marked n rest (some marked) hi refl)

module _ (c : Codec) where
  open c use {Msg, encode, encoded_len, decode, length-encode, decode-encode}

  -- What `encode_frame` wrote, if it wrote anything.
  unfoldable pub Encoded : Msg → Framing → List ℕ → List ℕ → Type 0
  Encoded m f payload bytes =
      (encode m ≡ ok payload)
      × (bytes ≡ header_of f (length payload) ++ payload)
      × (length payload ≡ encoded_len m)
      × (length payload ≤ max_payload_bytes)

  pub encode_frame-Encoded :
      (m : Msg) (f : Framing) (bytes : List ℕ)
      → encode_frame c m f ≡ ok bytes
      → (payload : List ℕ) × Encoded m f payload bytes
  unfolding Encoded encode_frame
  encode_frame-Encoded m f bytes h = go (encode m) refl
    where
      go :
          (r : Result c.EncodeError (List ℕ))
          → encode m ≡ r
          → (payload : List ℕ) × Encoded m f payload bytes
      go (ok payload) e = (payload, ground (arith, length-encode m payload))
      go (err x) e = ground arith

  -- `accept` lets this framing through: a marker is never skipped, and without one nothing is.
  jump_frame :
      (f : Framing) (n : ℕ) (rest : List ℕ) (accept : Option Framing)
      → accepts f accept ≡ true
      → jump accept (header_of f n ++ rest) ≡ header_of f n ++ rest
  unfolding header_of seek
  jump_frame f n rest none a = refl
  jump_frame marked n rest (some marked) a = refl
  jump_frame legacy n rest (some marked) a = cc
  jump_frame f n rest (some legacy) a = refl

  length-frame :
      (f : Framing) (n : ℕ) (rest : List ℕ)
      → length (header_of f n ++ rest) ≡ header_bytes + length rest
  length-frame f n rest = omega (arith, length-append (header_of f n) rest, length-header_of f n)

  -- `decode_frame` on a buffer that `resync` brings to a frame's header.
  decode_frame_at :
      (buf : List ℕ) (accept : Option Framing) (at : List ℕ) (f : Framing) (n : ℕ)
      → resync buf accept ≡ (at, some (f, n))
      → decode_frame c buf accept ≡ read_payload c at f n
  unfolding decode_frame
  decode_frame_at buf accept at f n e = rw e refl

  drop_frame :
      (f : Framing) (n k : ℕ) (rest : List ℕ)
      → drop (header_bytes + k) (header_of f n ++ rest) ≡ drop k rest
  unfolding header_of
  drop_frame f n k rest = let e : 4 + k ≡ suc (suc (suc (suc k))) = omega arith in rw e (over f)
    where
      over : (g : Framing) → drop (suc (suc (suc (suc k)))) (header_of g n ++ rest) ≡ drop k rest
      over marked = refl
      over legacy = refl

  read_payload_whole :
      (m : Msg) (f : Framing) (payload rest : List ℕ)
      → encode m ≡ ok payload
      → read_payload c (header_of f (length payload) ++ (payload ++ rest)) f (length payload)
        ≡ (rest, ok (some (m, f)))
  unfolding read_payload
  read_payload_whole m f payload rest e = ground (
    arith,
    length-frame f (length payload) (payload ++ rest),
    length-append payload rest,
    drop_frame f (length payload) 0 (payload ++ rest),
    drop_frame f (length payload) (length payload) (payload ++ rest),
    take-length payload rest,
    drop-length payload rest,
    decode-encode m payload,
  )

  read_payload_part :
      (f : Framing) (n : ℕ) (part : List ℕ)
      → length part < n
      → read_payload c (header_of f n ++ part) f n ≡ (header_of f n ++ part, ok none)
  unfolding read_payload
  read_payload_part f n part h = ground (arith, length-frame f n part)

  frame_header :
      (f : Framing) (n : ℕ) (rest : List ℕ) (accept : Option Framing)
      → Plausible f n
      → accepts f accept ≡ true
      → resync (header_of f n ++ rest) accept ≡ (header_of f n ++ rest, some (f, n))
  frame_header f n rest accept p a =
      resync_at_header (header_of f n ++ rest) accept f n (omega (arith, length-frame f n rest))
        (header-header_of f n rest accept p a) (jump_frame f n rest accept a)

  encoded-Plausible :
      (f : Framing) (n : ℕ)
      → (f ≡ legacy → legacy_min_payload ≤ n)
      → n ≤ max_payload_bytes
      → Plausible f n
  encoded-Plausible marked n lo hi = hi
  encoded-Plausible legacy n lo hi = (lo refl, hi)

  -- A message encoded in either framing, followed by any bytes, is decoded as itself, in that
  -- framing, by a host that accepts it, and the following bytes stay in the buffer. In the
  -- legacy framing the message has at least the two bytes that every real one has.
  pub decode_frame-encode_frame :
      (m : Msg) (f : Framing) (accept : Option Framing) (bytes rest : List ℕ)
      → (f ≡ legacy → legacy_min_payload ≤ encoded_len m)
      → accepts f accept ≡ true
      → encode_frame c m f ≡ ok bytes
      → decode_frame c (bytes ++ rest) accept ≡ (rest, ok (some (m, f)))
  unfolding Encoded
  decode_frame-encode_frame m f accept bytes rest lo a h =
      let (payload, enc) = encode_frame-Encoded m f bytes h in
      let (e, eq, len, hi) = enc in
      rw (eq, append_assoc (header_of f (length payload)) payload rest)
        (decode_frame_at _ accept _ f (length payload) (
            frame_header f (length payload) (payload ++ rest) accept
              (encoded-Plausible f (length payload) (λ g. rw len (lo g)) hi) a)
          ∙ read_payload_whole m f payload rest e)

  -- Marker-free bytes in front of a marked frame cost nothing where only markers are accepted.
  pub decode_frame_junk :
      (m : Msg) (junk bytes rest : List ℕ)
      → All (λ b. b ≢ 0xAA) junk
      → encode_frame c m marked ≡ ok bytes
      → decode_frame c (junk ++ (bytes ++ rest)) (some marked) ≡ (rest, ok (some (m, marked)))
  unfolding Encoded
  decode_frame_junk m junk bytes rest clean h =
      let (payload, enc) = encode_frame-Encoded m marked bytes h in
      let (e, eq, len, hi) = enc in
      rw (eq, append_assoc (header_of marked (length payload)) payload rest)
        (decode_frame_at _ (some marked) _ marked (length payload)
            (junk_header junk (length payload) (payload ++ rest) clean hi)
          ∙ read_payload_whole m marked payload rest e)

  decode_frame_short :
      (f : Framing) (n : ℕ) (front back payload : List ℕ) (accept : Option Framing)
      → accepts f accept ≡ true
      → length front < header_bytes
      → front ++ back ≡ header_of f n ++ payload
      → decode_frame c front accept ≡ (front, ok none)
  unfolding decode_frame
  decode_frame_short f n front back payload accept a short eq =
      let still : jump accept front ≡ front = jump_front f n front back payload accept a eq in
      rw (resync_short front accept (rw still short)) (ap (λ b. (b, ok none)) still)

  decode_frame_long :
      (f : Framing) (payload front : List ℕ) (x : ℕ) (back : List ℕ) (accept : Option Framing)
      → Plausible f (length payload)
      → accepts f accept ≡ true
      → header_bytes ≤ length front
      → front ++ x ∷ back ≡ header_of f (length payload) ++ payload
      → decode_frame c front accept ≡ (front, ok none)
  decode_frame_long f payload front x back accept p a long eq =
      let (part, here, there) =
        split_front (header_of f (length payload)) front payload (x ∷ back) eq
          (omega (arith, length-header_of f (length payload))) in
      rw here (
        decode_frame_at _ accept _ f (length payload)
          (frame_header f (length payload) part accept p a)
        ∙ read_payload_part f (length payload) part
            (omega (arith, ap length there, length-append part (x ∷ back))))

  -- Every proper prefix of an encoded message, as a serial port may deliver it, is kept whole in the
  -- buffer, and more bytes are asked for.
  pub decode_frame_partial :
      (m : Msg) (f : Framing) (accept : Option Framing) (front back : List ℕ) (x : ℕ)
      → (f ≡ legacy → legacy_min_payload ≤ encoded_len m)
      → accepts f accept ≡ true
      → encode_frame c m f ≡ ok (front ++ x ∷ back)
      → decode_frame c front accept ≡ (front, ok none)
  unfolding Encoded
  decode_frame_partial m f accept front back x lo a h =
      let (payload, enc) = encode_frame-Encoded m f (front ++ x ∷ back) h in
      let (e, eq, len, hi) = enc in
      elim (Bool-cases (ltb (length front) header_bytes)) [
        | inl short ↦
            decode_frame_short f (length payload) front (x ∷ back) payload accept a
              (ltb→lt _ _ short) eq
        | inr long ↦
            decode_frame_long f payload front x back accept
              (encoded-Plausible f (length payload) (λ g. rw len (lo g)) hi) a (not_ltb→le _ _ long)
              eq
      ]
