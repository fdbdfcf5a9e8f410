-- ===== src/Frame/Tests.antt =====
-- Frames over the small wire format of `Toy`.
use arduino_yun_bridge.Base.{ℕ, ◌≡◌, refl, Option, none, some, [], ◌∷◌, ◌++◌, Bytes, replicate}
use arduino_yun_bridge.Frame.{
  bytes, Envelope, encrypted_payload_with_tag, Result, ok, err, active_key, nonce_or_zeros, seal,
  put_plain, with_crc, fill, build_frame, open_payload, read_envelope, parse_frame, payload_size,
  crc_mismatch, invalid_command,
}
use arduino_yun_bridge.Frame.Crc.{crc32}
use arduino_yun_bridge.Base.Ints.{to_bytes_le, from_bytes_le}
use arduino_yun_bridge.Protocol.{is_system_command}
use arduino_yun_bridge.Protocol.Command
use arduino_yun_bridge.Frame.Toy.{toy, toy-IsWire}
use arduino_yun_bridge.Frame.RoundTrip.{delivered, parse-build_frame}

abbrev key : Option Bytes
key = some (replicate {A = ℕ} 32 7)

abbrev frame_of : Result Bytes → Bytes
frame_of (ok raw) = raw
frame_of (err x) = []

runs : Unit {0}
unfolding build_frame parse_frame read_envelope fill seal put_plain with_crc open_payload crc32
    to_bytes_le from_bytes_le is_system_command
runs = tt

abbrev console : Result Bytes
console = build_frame toy Command.console_write 9 (bytes (1 ∷ 2 ∷ 3 ∷ [])) none key

console_bytes : Bytes
unfolding runs
console_bytes = frame_of console

console_built : console ≡ ok console_bytes
unfolding runs console_bytes
console_built = refl

too_long :
    build_frame toy Command.console_write 9 (bytes (replicate {A = ℕ} 65 0)) none none
    ≡ err payload_size
unfolding runs
too_long = refl

bad_command : build_frame toy 65536 9 (bytes []) none none ≡ err invalid_command
unfolding runs
bad_command = refl

parse-build_frame_example :
    (e : Envelope ℕ) × (parse_frame toy console_bytes key
      ≡ ok (e, delivered toy (active_key key Command.console_write) (bytes (1 ∷ 2 ∷ 3 ∷ []))))
    × (e.command_id ≡ Command.console_write)
    × (e.sequence_id ≡ 9)
    × (e.nonce ≡ nonce_or_zeros none)
parse-build_frame_example =
    parse-build_frame toy toy-IsWire Command.console_write 9 (bytes (1 ∷ 2 ∷ 3 ∷ [])) none key
      console_built

abbrev console_envelope : Envelope ℕ
console_envelope = record {
  version = 2;
  command_id = Command.console_write;
  sequence_id = 9;
  nonce = replicate {A = ℕ} 12 0;
  body = encrypted_payload_with_tag (1 ∷ 2 ∷ 3 ∷ []);
}

console_taken : parse_frame toy console_bytes key ≡ ok (console_envelope, bytes (1 ∷ 2 ∷ 3 ∷ []))
unfolding runs console_bytes
console_taken = refl

-- One flipped bit in the body is noticed.
flipped : parse_frame toy (2 ∷ 97 ∷ 9 ∷ [] ++ (0 ∷ 0 ∷ 0 ∷ 0 ∷ [])) key ≡ err crc_mismatch
unfolding runs
flipped = refl
