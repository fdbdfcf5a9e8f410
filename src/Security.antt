-- ===== src/Security.antt =====
-- mcubridge/mcubridge/security/security.py: nonces with a counter, and the wiping of buffers. The
-- random bytes of `secrets.token_bytes` are an argument. A `ValueError` is `none`.
pub mod Nonces
mod Replay
mod Tests
use arduino_yun_bridge.Base.{
  ℕ, ◌+◌, ◌≤◌, Bool, true, false, ◌||◌, Option, none, some, List, [], ◌∷◌, ◌++◌, leb, ltb, ◌==◌,
  if◌then◌else◌, Bytes, length, drop, replicate, not,
}
use arduino_yun_bridge.Base.Ints.{to_bytes_be, from_bytes_be}
use arduino_yun_bridge.Protocol.{aead_nonce_size, nonce_counter_mask}

abbrev pub nonce_random_bytes : ℕ
nonce_random_bytes = 4

abbrev pub nonce_counter_bytes : ℕ
nonce_counter_bytes = 8

-- Both passes overwrite every byte of the buffer by zero; the length stays.
unfoldable pub secure_zero : Bytes → Bytes
secure_zero buffer =
    let first_pass = replicate {A = ℕ} (length buffer) 0 in replicate (length first_pass) 0

-- `random` is what `secrets.token_bytes(NONCE_RANDOM_BYTES)` returned.
unfoldable pub generate_nonce_with_counter : Bytes → ℕ → Option (Bytes × ℕ)
generate_nonce_with_counter random counter =
    if leb nonce_counter_mask counter
    then none
    else some (random ++ to_bytes_be 8 (counter + 1), counter + 1)

unfoldable pub extract_nonce_counter : Bytes → Option ℕ
extract_nonce_counter nonce =
    if length nonce == aead_nonce_size then some (from_bytes_be (drop 4 nonce)) else none

unfoldable pub validate_nonce_counter : Bytes → ℕ → Bool × ℕ
validate_nonce_counter nonce last_counter = elim (extract_nonce_counter nonce) [
  | none ↦ (false, last_counter)
  | some current ↦
      if leb current last_counter || ltb nonce_counter_mask current
      then (false, last_counter)
      else (true, current)
]
