-- ===== src/Security/Nonces.antt =====
-- What a generated nonce holds, and when a receiver takes it.
use arduino_yun_bridge.Base.{
  ℕ, ◌+◌, ◌^◌, ◌<◌, ◌≤◌, ◌≡◌, ◌↔◌, ap, true, false, none, some, ◌++◌, arith, Bytes, length,
  length-append, drop-append, leb, if◌then◌else◌,
}
use arduino_yun_bridge.Base.Ints.{to_bytes_be, length-to_bytes_be, from-to_bytes_be}
use arduino_yun_bridge.Protocol.{nonce_counter_mask}
use arduino_yun_bridge.Security.{
  generate_nonce_with_counter, extract_nonce_counter, validate_nonce_counter,
}

-- Four random bytes and the counter `n` in eight give `n` back.
extract_packed :
    (random : Bytes) (n : ℕ)
    → length random ≡ 4
    → n < 2 ^ 64
    → extract_nonce_counter (random ++ to_bytes_be 8 n) ≡ some n
extract_packed random n four fits =
    unfold extract_nonce_counter in
    ground (
      arith,
      length-append random (to_bytes_be 8 n),
      length-to_bytes_be 8 n,
      drop-append 4 random (to_bytes_be 8 n) four,
      from-to_bytes_be 8 n (omega (arith, fits)),
    )

-- The parts of a generated nonce.
generate_inv :
    (random : Bytes) (counter : ℕ) {nonce : Bytes} {counter' : ℕ}
    → generate_nonce_with_counter random counter ≡ some (nonce, counter')
    → (nonce ≡ random ++ to_bytes_be 8 (counter + 1))
      × (counter' ≡ counter + 1)
      × (counter' ≤ nonce_counter_mask)
generate_inv random counter made = unfold generate_nonce_with_counter in ground arith

pub length-generate :
    (random : Bytes) (counter : ℕ) {nonce : Bytes} {counter' : ℕ}
    → length random ≡ 4
    → generate_nonce_with_counter random counter ≡ some (nonce, counter')
    → length nonce ≡ 12
length-generate random counter four made =
    let (shape, _, _) = generate_inv random counter made in
    omega (
      arith,
      ap length shape,
      length-append random (to_bytes_be 8 (counter + 1)),
      length-to_bytes_be 8 (counter + 1),
    )

-- A generated nonce carries the counter that is one above the one given, and it is in range.
pub extract-generate :
    (random : Bytes) (counter : ℕ) {nonce : Bytes} {counter' : ℕ}
    → length random ≡ 4
    → generate_nonce_with_counter random counter ≡ some (nonce, counter')
    → (extract_nonce_counter nonce ≡ some counter')
      × (counter' ≡ counter + 1)
      × (counter' ≤ nonce_counter_mask)
extract-generate random counter four made =
    let (shape, next, bound) = generate_inv random counter made in
    (rw (shape, next) (extract_packed random (counter + 1) four (omega arith)), next, bound)

-- A receiver with the last counter `last` takes a nonce that the sender generated at the counter
-- `counter` exactly if `last` is at most `counter`, and then remembers its counter, `counter + 1`;
-- otherwise it keeps `last`. The four random bytes play no part.
pub validate-generate :
    (random : Bytes) (counter last : ℕ) {nonce : Bytes} {counter' : ℕ}
    → length random ≡ 4
    → generate_nonce_with_counter random counter ≡ some (nonce, counter')
    → validate_nonce_counter nonce last
      ≡ (if leb last counter then (true, counter + 1) else (false, last))
validate-generate random counter last {nonce} four made =
    let (carried, next, bound) = extract-generate random counter four made in
    unfold validate_nonce_counter in ground (arith, carried)

-- Generation fails exactly when the counter has reached the mask, 2 ^ 64 - 1.
pub generate_fails :
    (random : Bytes) (counter : ℕ)
    → (generate_nonce_with_counter random counter ≡ none) ↔ (nonce_counter_mask ≤ counter)
generate_fails random counter = unfold generate_nonce_with_counter in ground arith
