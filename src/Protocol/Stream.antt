-- ===== src/Protocol/Stream.antt =====
-- A stream of frames: what one call of `decode_frame` consumes, and what repeated calls return.
use mathlib.Core.Path.{subst}
use opad.Prelude.{
  ℕ, zero, suc, ◌+◌, ◌≤◌, ◌<◌, ◌≡◌, ◌≢◌, refl, true, Option, none, some, List, [], ◌∷◌, ◌++◌, map,
  arith, length, length-drop, All, Result, ok, err,
}
use opad.Protocol.{
  Framing, marked, legacy, accepts, header_bytes, max_payload_bytes, Codec, ProtocolError, resync,
  encode_frame, read_payload, decode_found, decode_frame, seek,
}
use opad.Protocol.Header.{Plausible, header-Plausible}
use opad.Protocol.Resync.{Stops, Scanned, resync-Scanned, Drops-le, resync_short}
use opad.Protocol.RoundTrip.{decode_frame_junk}

module _ (c : Codec) where
  open c use {Msg, DecodeError, decode}

  abbrev pub Decoded : Type 0
  Decoded = Result (ProtocolError c) (Option (Msg × Framing))

  -- What the buffer and the result of one call may be. Without a frame the buffer is too short for
  -- one; a frame and a bad frame both take bytes out of it.
  pub Consumes : List ℕ → Option Framing → List ℕ × Decoded → Type 0
  Consumes buf accept (rest, ok none) =
      (length rest ≤ length buf) × (length rest < header_bytes + max_payload_bytes)
  Consumes buf accept (rest, ok (some (m, f))) =
      (length rest < length buf) × (accepts f accept ≡ true)
  Consumes buf accept (rest, err e) = length rest < length buf

  read_payload-Consumes :
      (buf at : List ℕ) (accept : Option Framing) (f : Framing) (n : ℕ)
      → length at ≤ length buf
      → header_bytes ≤ length at
      → Plausible f n
      → accepts f accept ≡ true
      → Consumes buf accept (read_payload c at f n)
  unfolding Consumes read_payload
  read_payload-Consumes buf at accept marked n le long p a =
      ground (arith, length-drop 1 at, length-drop (header_bytes + n) at)
  read_payload-Consumes buf at accept legacy n le long p a =
      ground (arith, length-drop 1 at, length-drop (header_bytes + n) at)

  found-Consumes :
      (buf : List ℕ) (accept : Option Framing) (r : List ℕ × Option (Framing × ℕ))
      → Scanned accept buf r
      → Consumes buf accept (decode_found c r)
  unfolding Scanned Stops Consumes decode_found
  found-Consumes buf accept (at, none) (short, d) = (Drops-le d, omega arith)
  found-Consumes buf accept (at, some (f, n)) ((long, h), d) =
      let (p, a) = header-Plausible at accept f n h in
      read_payload-Consumes buf at accept f n (Drops-le d) long p a

  -- Every call of `decode_frame` makes progress or asks for more bytes: a decoded frame, whose framing
  -- is an accepted one, and a frame that did not decode both shorten the buffer, and a call that
  -- returns nothing leaves fewer bytes than the largest frame has.
  pub decode_frame-Consumes :
      (buf : List ℕ) (accept : Option Framing) → Consumes buf accept (decode_frame c buf accept)
  unfolding decode_frame
  decode_frame-Consumes buf accept =
      found-Consumes buf accept (resync buf accept) (resync-Scanned buf accept)

  -- What a loop around `decode_frame` has read.
  abbrev pub Read : Type 0
  Read = Option (List ℕ × List (Msg × Framing))

  with_frame : Msg × Framing → Read → Read
  with_frame mf none = none
  with_frame mf (some (left, more)) = some (left, mf ∷ more)

  -- A caller's loop: it calls `decode_frame` until that asks for more bytes, and passes over frames
  -- that did not decode. Out of fuel it has no result.
  read_on : (List ℕ → Read) → List ℕ × Decoded → Read
  unfolding with_frame
  read_on again (rest, ok none) = some (rest, [])
  read_on again (rest, ok (some mf)) = with_frame mf (again rest)
  read_on again (rest, err e) = again rest

  pub read_all : ℕ → List ℕ → Option Framing → Read
  unfolding read_on
  read_all zero buf accept = none
  read_all (suc fuel) buf accept =
      read_on (λ rest. read_all fuel rest accept) (decode_frame c buf accept)

  -- It has read something, and left less than the largest frame.
  pub record HasRead (r : Read) : Type 0 where
    pub left : List ℕ
    pub frames : List (Msg × Framing)
    pub read : r ≡ some (left, frames)
    pub short : length left < header_bytes + max_payload_bytes

  -- Bytes on the wire that carry these messages as marked frames, each behind bytes that hold no
  -- marker byte.
  pub data Carries : List Msg → List ℕ → Type 0 where
    idle : (junk : List ℕ) → All (λ b. b ≢ 0xAA) junk → Carries [] junk
    frame :
        (junk bytes rest wire : List ℕ) (m : Msg) (ms : List Msg)
        → All (λ b. b ≢ 0xAA) junk
        → encode_frame c m marked ≡ ok bytes
        → Carries ms rest
        → wire ≡ junk ++ (bytes ++ rest)
        → Carries (m ∷ ms) wire

  seek_clean : (junk : List ℕ) → All (λ b. b ≢ 0xAA) junk → seek junk ≡ []
  unfolding seek
  seek_clean [] h = refl
  seek_clean (b ∷ junk) (h, hs) = ground (arith, seek_clean junk hs)

  idle_lem :
      (junk : List ℕ) → All (λ b. b ≢ 0xAA) junk → decode_frame c junk (some marked) ≡ ([], ok none)
  unfolding decode_frame
  idle_lem junk clean =
      let e : seek junk ≡ [] = seek_clean junk clean in
      rw (resync_short junk (some marked) (rw e (omega arith))) (rw e)

  shorter :
      (fuel : ℕ) (wire rest : List ℕ) (m : Msg)
      → length wire < suc fuel
      → Consumes wire (some marked) (rest, ok (some (m, marked)))
      → length rest < fuel
  unfolding Consumes
  shorter fuel wire rest m h less = omega arith

  read_Carries :
      (fuel : ℕ) (ms : List Msg) (wire : List ℕ)
      → Carries ms wire
      → length wire < fuel
      → read_all fuel wire (some marked) ≡ some ([], map (λ m. (m, marked)) ms)
  unfolding read_all
  read_Carries zero ms wire w h = elim h [ ]
  read_Carries (suc fuel) [] wire (idle junk clean) h = rw (idle_lem wire clean)
  read_Carries (suc fuel) (m ∷ ms) wire (frame junk bytes rest _ _ _ clean e w eq) h =
      let step : decode_frame c wire (some marked) ≡ (rest, ok (some (m, marked))) =
        rw eq (decode_frame_junk c m junk bytes rest clean e) in
      let less : Consumes wire (some marked) (rest, ok (some (m, marked))) =
        subst (Consumes wire (some marked)) step (decode_frame-Consumes wire (some marked)) in
      rw (step, read_Carries fuel ms rest w (shorter fuel wire rest m h less))

  -- A host that accepts marked frames only recovers every message on the wire, in order and once,
  -- whatever marker-free bytes stand before, between and after the frames, and is left with an
  -- empty buffer.
  pub read_all-Carries :
      (ms : List Msg) (wire : List ℕ)
      → Carries ms wire
      → read_all (suc (length wire)) wire (some marked) ≡ some ([], map (λ m. (m, marked)) ms)
  read_all-Carries ms wire w = read_Carries (suc (length wire)) ms wire w (omega arith)
