-- ===== src/Frame/Toy.antt =====
-- A small wire format and cipher that meet `IsWire`: a message is a number, an envelope is written
-- with the length of its nonce, and sealing wants a key of 32 bytes and leaves the text as it is.
use arduino_yun_bridge.Base.{
  ℕ, zero, suc, ◌≡◌, refl, Option, none, some, [], ◌∷◌, ◌++◌, arith, ltb, ◌==◌, if◌then◌else◌,
  Bytes, length, take, drop, take-append, drop-append,
}
use arduino_yun_bridge.Frame.{
  Body, unset, encrypted_payload_with_tag, field, Envelope, Wire, IsWire,
}

abbrev write_body : Body ℕ → Bytes
write_body unset = 0 ∷ []
write_body (encrypted_payload_with_tag b) = 1 ∷ b
write_body (field m) = 2 ∷ m ∷ []

abbrev read_body : Bytes → Option (Body ℕ)
read_body (zero ∷ []) = some unset
read_body (suc zero ∷ b) = some (encrypted_payload_with_tag b)
read_body (suc (suc zero) ∷ m ∷ []) = some (field m)
read_body _ = none

read-write_body : (b : Body ℕ) → read_body (write_body b) ≡ some b
read-write_body unset = refl
read-write_body (encrypted_payload_with_tag b) = refl
read-write_body (field m) = refl

abbrev write_envelope : Envelope ℕ → Bytes
write_envelope e =
    e.version ∷ e.command_id ∷ e.sequence_id ∷ length e.nonce ∷ (e.nonce ++ write_body e.body)

abbrev with_body : ℕ → ℕ → ℕ → Bytes → Option (Body ℕ) → Option (Envelope ℕ)
with_body v c s n none = none
with_body v c s n (some b) =
    some (record { version = v; command_id = c; sequence_id = s; nonce = n; body = b })

abbrev read_envelope_toy : Bytes → Option (Envelope ℕ)
read_envelope_toy (v ∷ c ∷ s ∷ n ∷ rest) = with_body v c s (take n rest) (read_body (drop n rest))
read_envelope_toy _ = none

abbrev pub toy : Wire
toy = record {
  Message = ℕ;
  serialize_message = λ m. m ∷ [];
  has_field = λ m. ltb m 100;
  serialize = write_envelope;
  parse = read_envelope_toy;
  encrypt = λ key nonce text aad. if length key == 32 then some text else none;
  decrypt = λ key nonce sealed aad. if length key == 32 then some sealed else none;
}

read-write_envelope : (e : Envelope ℕ) → read_envelope_toy (write_envelope e) ≡ some e
read-write_envelope e = rw (
  take-append (length e.nonce) e.nonce (write_body e.body) refl,
  drop-append (length e.nonce) e.nonce (write_body e.body) refl,
  read-write_body e.body,
)

pub toy-IsWire : IsWire toy
toy-IsWire = record {
  parse-serialize = λ e v c s. read-write_envelope e;
  decrypt-encrypt = λ key nonce text aad h. ground arith;
}
