-- ===== src/Protocol/Tests.antt =====
-- Runs of the framing over a codec that writes a message as its bytes.
use opad.Prelude.{sym, ℕ, ◌≡◌, refl, none, some, List, [], ◌∷◌, ◌++◌, arith, Result, ok, length}
use opad.Protocol.{
  Codec, marked, legacy, encode_frame, decode_frame, resync, read_payload, decode_device_message,
}
use opad.Protocol.Resync.{Scanned, resync-Scanned}
use opad.Protocol.RoundTrip.{decode_frame-encode_frame, decode_frame_partial}
use opad.Protocol.Stream.{
  Consumes, decode_frame-Consumes, Carries, idle, frame, read_all, read_all-Carries,
}

plain_length : (m bs : List ℕ) → ◌≡◌ {A = Result ⊥ (List ℕ)} (ok m) (ok bs) → length bs ≡ length m
plain_length m bs e = ground arith

plain_decode :
    (m bs : List ℕ)
    → ◌≡◌ {A = Result ⊥ (List ℕ)} (ok m) (ok bs)
    → ◌≡◌ {A = Result ⊥ (List ℕ)} (ok bs) (ok m)
plain_decode m bs e = sym e

abbrev plain : Codec
plain = record {
  Msg = List ℕ;
  EncodeError = ⊥;
  DecodeError = ⊥;
  encoded_len = length;
  encode = λ m. ok m;
  decode = λ bs. ok bs;
  length-encode = plain_length;
  decode-encode = plain_decode;
}

abbrev message : List ℕ
message = 8 ∷ 42 ∷ []

-- ROM chatter, a frame, a stray marker byte with nothing behind it.
legacy_frame : encode_frame plain message legacy ≡ ok (2 ∷ 0 ∷ 0 ∷ 0 ∷ 8 ∷ 42 ∷ [])
unfolding encode_frame
legacy_frame = refl

marked_frame : encode_frame plain message marked ≡ ok (0xAA ∷ 0x55 ∷ 2 ∷ 0 ∷ 8 ∷ 42 ∷ [])
unfolding encode_frame
marked_frame = refl

false_start :
    decode_device_message plain plain
      (0xAA ∷ 0x55 ∷ 0xFF ∷ 0xFF ∷ 0xAA ∷ 0x55 ∷ 2 ∷ 0 ∷ 8 ∷ 42 ∷ 7 ∷ [])
    ≡ (7 ∷ [], ok (some message))
unfolding decode_device_message decode_frame resync read_payload
false_start = refl

decode_frame-encode_frame_example :
    decode_frame plain ((0xAA ∷ 0x55 ∷ 2 ∷ 0 ∷ 8 ∷ 42 ∷ []) ++ (9 ∷ 9 ∷ [])) none
    ≡ (9 ∷ 9 ∷ [], ok (some (message, marked)))
unfolding encode_frame
decode_frame-encode_frame_example =
    decode_frame-encode_frame plain message marked none (0xAA ∷ 0x55 ∷ 2 ∷ 0 ∷ 8 ∷ 42 ∷ [])
      (9 ∷ 9 ∷ []) (λ e. omega arith) refl refl

decode_frame_partial_example :
    decode_frame plain (2 ∷ 0 ∷ 0 ∷ 0 ∷ 8 ∷ []) (some legacy) ≡ (2 ∷ 0 ∷ 0 ∷ 0 ∷ 8 ∷ [], ok none)
unfolding encode_frame
decode_frame_partial_example =
    decode_frame_partial plain message legacy (some legacy) (2 ∷ 0 ∷ 0 ∷ 0 ∷ 8 ∷ []) [] 42
      (λ e. omega arith) refl refl

resync-Scanned_example :
    Scanned (some marked) (1 ∷ 2 ∷ 0xAA ∷ 3 ∷ []) (resync (1 ∷ 2 ∷ 0xAA ∷ 3 ∷ []) (some marked))
resync-Scanned_example = resync-Scanned (1 ∷ 2 ∷ 0xAA ∷ 3 ∷ []) (some marked)

decode_frame-Consumes_example : Consumes plain message none (decode_frame plain message none)
decode_frame-Consumes_example = decode_frame-Consumes plain message none

noisy : Carries plain (message ∷ []) (1 ∷ 2 ∷ 0xAA ∷ 0x55 ∷ 2 ∷ 0 ∷ 8 ∷ 42 ∷ 3 ∷ [])
unfolding encode_frame
noisy =
    frame (1 ∷ 2 ∷ []) (0xAA ∷ 0x55 ∷ 2 ∷ 0 ∷ 8 ∷ 42 ∷ []) (3 ∷ []) _ message [] (omega arith) refl
      (idle (3 ∷ []) (omega arith)) refl

read_all-Carries_example :
    read_all plain 10 (1 ∷ 2 ∷ 0xAA ∷ 0x55 ∷ 2 ∷ 0 ∷ 8 ∷ 42 ∷ 3 ∷ []) (some marked)
    ≡ some ([], (message, marked) ∷ [])
read_all-Carries_example =
    read_all-Carries plain (message ∷ []) (1 ∷ 2 ∷ 0xAA ∷ 0x55 ∷ 2 ∷ 0 ∷ 8 ∷ 42 ∷ 3 ∷ []) noisy
