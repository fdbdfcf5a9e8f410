-- ===== src/Frame.antt =====
-- mcubridge/mcubridge/protocol/frame.py: a frame is a protobuf envelope with a CRC-32 behind it, and
-- its payload is sealed by ChaCha20-Poly1305 under a session key. The protobuf runtime and the cipher
-- are not part of the repository: they are the parameter `Wire`. A `ValueError` is an `err`.
pub mod Crc
pub mod RoundTrip
mod Checks
pub mod Toy
mod Tests
use arduino_yun_bridge.Base.{
  ℕ, ◌-◌, ◌%◌, ◌^◌, ◌<◌, ◌≡◌, Bool, true, false, not, ◌&&◌, Option, none, some, List, [], ◌∷◌, ◌++◌,
  leb, ltb, ◌==◌, if◌then◌else◌, Bytes, length, take, drop, replicate,
}
use arduino_yun_bridge.Base.Ints.{to_bytes_le, from_bytes_le}
use arduino_yun_bridge.Protocol.{
  is_system_command, uint16_max, protocol_version, aead_nonce_size, crc_size, max_payload_size,
}
use arduino_yun_bridge.Frame.Crc.{crc32}

-- `bytes | ProtobufMessage`
pub data Payload (M : Type 0) : Type 0 where
  bytes : Bytes → Payload M
  message : M → Payload M

-- The oneof `payload_type` of `RpcEnvelope`: unset, the field of bytes, or a message field.
pub data Body (M : Type 0) : Type 0 where
  unset : Body M
  encrypted_payload_with_tag : Bytes → Body M
  field : M → Body M

-- `pb.RpcEnvelope`
pub record Envelope (M : Type 0) : Type 0 where
  pub version : ℕ
  pub command_id : ℕ
  pub sequence_id : ℕ
  pub nonce : Bytes
  pub body : Body M

pub data FrameError : Type 0 where
  invalid_command field_range payload_size cipher too_short crc_mismatch malformed : FrameError
  invalid_version aead_failed : FrameError

pub data Result {ℓ} (A : Type ℓ) : Type ℓ where
  ok : A → Result A
  err : FrameError → Result A

-- What the generated protobuf classes and the cryptography package supply.
pub record Wire : Type 1 where
  pub Message : Type 0
  -- `payload.SerializeToString()`
  pub serialize_message : Message → Bytes
  -- `_PAYLOAD_FIELD_MAP` knows the message's descriptor name
  pub has_field : Message → Bool
  pub serialize : Envelope Message → Bytes
  -- `ParseFromString`; `none` is a `DecodeError`
  pub parse : Bytes → Option (Envelope Message)
  -- key, nonce, text, associated data; `none` is a `ValueError` (length of the key or the nonce)
  pub encrypt : Bytes → Bytes → Bytes → Bytes → Option Bytes
  -- `none` is an `InvalidTag`
  pub decrypt : Bytes → Bytes → Bytes → Bytes → Option Bytes

-- The documented behaviour of both: a field of type uint32 holds 32 bits, a message that was
-- serialised parses back, and what was sealed opens under the same key, nonce and associated data.
pub record IsWire (w : Wire) : Type 0 where
  pub parse-serialize :
      (e : Envelope w.Message)
      → e.version < 2 ^ 32
      → e.command_id < 2 ^ 32
      → e.sequence_id < 2 ^ 32
      → w.parse (w.serialize e) ≡ some e
  pub decrypt-encrypt :
      (key nonce text aad : Bytes) {sealed : Bytes}
      → w.encrypt key nonce text aad ≡ some sealed
      → w.decrypt key nonce sealed aad ≡ some text

-- The truth value of an optional byte string: `None` and `b""` are false.
abbrev pub present : Option Bytes → Option Bytes
present none = none
present (some []) = none
present (some (b ∷ bs)) = some (b ∷ bs)

-- `nonce or (b"\x00" * _NONCE_SIZE)`
abbrev pub nonce_or_zeros : Option Bytes → Bytes
nonce_or_zeros nonce = elim (present nonce) [
  | none ↦ replicate {A = ℕ} aead_nonce_size 0
  | some n ↦ n
]

-- `session_key and not is_system_command(command_id)`, with the key
abbrev pub active_key : Option Bytes → ℕ → Option Bytes
active_key session_key command_id =
    if is_system_command command_id then none else present session_key

module _ (w : Wire) where
  open w use {Message, serialize_message, has_field, serialize, parse, encrypt, decrypt}

  -- The associated data: an envelope with the header fields alone.
  abbrev pub header_aad : Envelope Message → Bytes
  header_aad e = serialize (record e { nonce = []; body = unset })

  abbrev pub payload_bytes : Payload Message → Bytes
  payload_bytes (bytes b) = b
  payload_bytes (message m) = serialize_message m

  unfoldable pub seal : Bytes → Payload Message → Envelope Message → Result (Envelope Message)
  seal key payload e =
      if ltb max_payload_size (length (payload_bytes payload))
      then err payload_size
      else elim (encrypt key e.nonce (payload_bytes payload) (header_aad e)) [
        | none ↦ err cipher
        | some c ↦ ok (record e { body = encrypted_payload_with_tag c })
      ]

  unfoldable pub put_plain : Payload Message → Envelope Message → Result (Envelope Message)
  put_plain (message m) e = if has_field m then ok (record e { body = field m }) else ok e
  put_plain (bytes b) e =
      if ltb max_payload_size (length b)
      then err payload_size
      else ok (record e { body = encrypted_payload_with_tag b })

  -- `SerializeToString()` with the packed checksum behind it
  unfoldable pub with_crc : Envelope Message → Bytes
  with_crc e = let body = serialize e in body ++ to_bytes_le 4 (crc32 body % 2 ^ 32)

  abbrev finish : Result (Envelope Message) → Result Bytes
  finish (err x) = err x
  finish (ok e) = ok (with_crc e)

  abbrev pub new_envelope : ℕ → ℕ → Option Bytes → Envelope Message
  new_envelope command_id sequence_id nonce = record {
    version = protocol_version;
    command_id = command_id;
    sequence_id = sequence_id;
    nonce = nonce_or_zeros nonce;
    body = unset;
  }

  unfoldable pub fill :
      Option Bytes → Payload Message → Envelope Message → Result (Envelope Message)
  fill none payload e = put_plain payload e
  fill (some key) payload e = seal key payload e

  unfoldable pub build_frame : ℕ → ℕ → Payload Message → Option Bytes → Option Bytes → Result Bytes
  build_frame command_id sequence_id payload nonce session_key =
      if ltb uint16_max command_id
      then err invalid_command
      else if ltb 4294967295 sequence_id
      then err field_range
      else finish (
          fill (active_key session_key command_id) payload
            (new_envelope command_id sequence_id nonce))

  -- `WhichOneof("payload_type")`
  abbrev plain_payload : Body Message → Payload Message
  plain_payload unset = bytes []
  plain_payload (encrypted_payload_with_tag b) = bytes b
  plain_payload (field m) = message m

  -- The field of bytes reads as `b""` when another field of the oneof is set.
  abbrev pub sealed_bytes : Body Message → Bytes
  sealed_bytes (encrypted_payload_with_tag b) = b
  sealed_bytes _ = []

  unfoldable pub open_payload :
      Option Bytes → Envelope Message → Result (Envelope Message × Payload Message)
  open_payload none e = ok (e, plain_payload e.body)
  open_payload (some key) e = elim (decrypt key e.nonce (sealed_bytes e.body) (header_aad e)) [
    | none ↦ err aead_failed
    | some text ↦ ok (e, bytes text)
  ]

  unfoldable pub read_envelope :
      Option Bytes → Option (Envelope Message) → Result (Envelope Message × Payload Message)
  read_envelope session_key none = err malformed
  read_envelope session_key (some e) =
      if e.version == protocol_version
      then open_payload (active_key session_key e.command_id) e
      else err invalid_version

  unfoldable pub parse_frame : Bytes → Option Bytes → Result (Envelope Message × Payload Message)
  parse_frame raw session_key =
      if ltb (length raw) crc_size
      then err too_short
      else let cut = length raw - crc_size in
        let body = take cut raw in
        if (crc32 body % 2 ^ 32) == from_bytes_le (drop cut raw)
        then read_envelope session_key (parse body)
        else err crc_mismatch
