-- ===== src/Protocol.antt =====
-- Framing of messages on the serial link (desktop/crates/opad-protocol/src/lib.rs).
-- A byte is a number; `BytesMut` is the list of the bytes not yet consumed, and a function that
-- advances it returns the rest first. Protobuf (`prost`) is the parameter `Codec`.
pub mod Header
pub mod Resync
pub mod RoundTrip
pub mod Stream
mod Tests
use opad.Prelude.{
  ℕ, zero, suc, ◌+◌, ◌*◌, ◌/◌, ◌%◌, ◌≡◌, Bool, true, false, ◌&&◌, Option, none, some, List, [], ◌∷◌,
  ◌++◌, leb, ltb, ◌==◌, if◌then◌else◌, then_some, Result, ok, err, length, take, drop,
}

abbrev pub device_protocol_version : ℕ
device_protocol_version = 1

abbrev pub header_bytes : ℕ
header_bytes = 4

abbrev pub max_payload_bytes : ℕ
max_payload_bytes = 8188

abbrev pub legacy_min_payload : ℕ
legacy_min_payload = 2

abbrev pub frame_magic : List ℕ
frame_magic = 0xAA ∷ 0x55 ∷ []

pub data Framing : Type 0 where
  marked legacy : Framing

-- `accept != Some(Framing::Legacy)` and `accept != Some(Framing::Marked)`
abbrev pub accepts : Framing → Option Framing → Bool
accepts f none = true
accepts marked (some marked) = true
accepts legacy (some legacy) = true
accepts _ _ = false

abbrev pub is_marked_only : Option Framing → Bool
is_marked_only (some marked) = true
is_marked_only _ = false

-- prost: `encode` fails when it does, and writes `encoded_len` bytes when it does not; `decode`
-- reads back what `encode` wrote.
pub record Codec : Type 1 where
  pub Msg : Type 0
  pub EncodeError : Type 0
  pub DecodeError : Type 0
  pub encoded_len : Msg → ℕ
  pub encode : Msg → Result EncodeError (List ℕ)
  pub decode : List ℕ → Result DecodeError Msg
  pub length-encode : (m : Msg) (bs : List ℕ) → encode m ≡ ok bs → length bs ≡ encoded_len m
  pub decode-encode : (m : Msg) (bs : List ℕ) → encode m ≡ ok bs → decode bs ≡ ok m

pub data ProtocolError (c : Codec) : Type 0 where
  frame_too_large : ℕ → ProtocolError c
  decode_error : c.DecodeError → ProtocolError c
  encode_error : c.EncodeError → ProtocolError c

-- `(n as u16).to_le_bytes()`, `(n as u32).to_le_bytes()` and their readers
pub u16_le : ℕ → List ℕ
u16_le n = (n % 256) ∷ (n / 256 % 256) ∷ []

pub u32_le : ℕ → List ℕ
u32_le n = (n % 256) ∷ (n / 256 % 256) ∷ (n / 65536 % 256) ∷ (n / 16777216 % 256) ∷ []

pub from_u16_le : ℕ → ℕ → ℕ
from_u16_le a b = a + 256 * b

pub from_u32_le : ℕ → ℕ → ℕ → ℕ → ℕ
from_u32_le a b c d = a + 256 * b + 65536 * c + 16777216 * d

-- The four bytes before a payload of `n` bytes.
pub header_of : Framing → ℕ → List ℕ
unfolding u16_le u32_le
header_of marked n = frame_magic ++ u16_le n
header_of legacy n = u32_le n

-- A buffer under four bytes is out of range in the source; its callers check the length.
pub header : List ℕ → Option Framing → Option (Framing × ℕ)
unfolding from_u16_le from_u32_le
header (a ∷ b ∷ c ∷ d ∷ _) accept =
    if (a == 0xAA) && (b == 0x55)
    then (let len = from_u16_le c d in
        then_some (accepts marked accept && leb len max_payload_bytes) (marked, len))
    else (let len = from_u32_le a b c d in
        then_some
          (accepts legacy accept && (leb legacy_min_payload len && leb len max_payload_bytes))
          (legacy, len))
header _ accept = none

-- `buf.iter().position(|&b| b == FRAME_MAGIC[0])`, then `advance` or `clear`
pub seek : List ℕ → List ℕ
seek [] = []
seek (b ∷ bs) = let rest = seek bs in elim (b == 0xAA) [ true ↦ b ∷ bs | false ↦ rest ]

abbrev pub jump : Option Framing → List ℕ → List ℕ
jump accept buf = if is_marked_only accept then seek buf else buf

-- One round for each byte dropped; `resync` gives one round more than there are bytes.
pub resync_loop : ℕ → List ℕ → Option Framing → List ℕ × Option (Framing × ℕ)
unfolding header seek
resync_loop zero buf accept = (buf, none)
resync_loop (suc fuel) buf accept =
    let buf' = jump accept buf in
    let more = resync_loop fuel (drop 1 buf') accept in
    if ltb (length buf') header_bytes
    then (buf', none)
    else elim (header buf' accept) [ some h ↦ (buf', some h) | none ↦ more ]

pub resync : List ℕ → Option Framing → List ℕ × Option (Framing × ℕ)
unfolding resync_loop
resync buf accept = resync_loop (suc (length buf)) buf accept

module _ (c : Codec) where
  open c use {Msg, encode, encoded_len, decode}

  pub encode_frame : Msg → Framing → Result (ProtocolError c) (List ℕ)
  unfolding header_of
  encode_frame msg framing =
      if ltb max_payload_bytes (encoded_len msg)
      then err (frame_too_large (encoded_len msg))
      else elim (encode msg) [
        | ok payload ↦ ok (header_of framing (encoded_len msg) ++ payload)
        | err e ↦ err (encode_error e)
      ]

  -- The body of `decode_frame` under a header that `resync` found.
  pub read_payload :
      List ℕ → Framing → ℕ → List ℕ × Result (ProtocolError c) (Option (Msg × Framing))
  read_payload buf framing len =
      if ltb (length buf) (header_bytes + len)
      then (buf, ok none)
      else elim (decode (take len (drop header_bytes buf))) [
        | ok msg ↦ (drop (header_bytes + len) buf, ok (some (msg, framing)))
        | err e ↦ (drop 1 buf, err (decode_error e))
      ]

  -- `decode_frame` behind its call of `resync`.
  pub decode_found :
      List ℕ × Option (Framing × ℕ) → List ℕ × Result (ProtocolError c) (Option (Msg × Framing))
  decode_found (buf, none) = (buf, ok none)
  decode_found (buf, some (framing, len)) = read_payload buf framing len

  pub decode_frame :
      List ℕ → Option Framing → List ℕ × Result (ProtocolError c) (Option (Msg × Framing))
  unfolding decode_found
  decode_frame buf accept = decode_found (resync buf accept)

-- `Ok(r?.map(|(m, _)| m))`
abbrev without_framing : {E M : Type 0} → Result E (Option (M × Framing)) → Result E (Option M)
without_framing (ok (some (m, f))) = ok (some m)
without_framing (ok none) = ok none
without_framing (err e) = err e

-- The two directions of the link: `host` is the codec of `HostToDevice`, `device` of `DeviceToHost`.
module _ (host device : Codec) where
  pub encode_host_message : host.Msg → Result (ProtocolError host) (List ℕ)
  encode_host_message msg = encode_frame host msg marked

  pub encode_host_message_as : host.Msg → Framing → Result (ProtocolError host) (List ℕ)
  encode_host_message_as msg framing = encode_frame host msg framing

  pub encode_device_message : device.Msg → Result (ProtocolError device) (List ℕ)
  encode_device_message msg = encode_frame device msg marked

  pub encode_device_message_as : device.Msg → Framing → Result (ProtocolError device) (List ℕ)
  encode_device_message_as msg framing = encode_frame device msg framing

  pub decode_device_message : List ℕ → List ℕ × Result (ProtocolError device) (Option device.Msg)
  decode_device_message buf =
      let (rest, r) = decode_frame device buf none in (rest, without_framing r)

  pub decode_device_message_framed :
      List ℕ
      → Option Framing
      → List ℕ × Result (ProtocolError device) (Option (device.Msg × Framing))
  decode_device_message_framed buf accept = decode_frame device buf accept

  pub decode_host_message : List ℕ → List ℕ × Result (ProtocolError host) (Option host.Msg)
  decode_host_message buf = let (rest, r) = decode_frame host buf none in (rest, without_framing r)
