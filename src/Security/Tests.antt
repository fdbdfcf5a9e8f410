-- ===== src/Security/Tests.antt =====
-- Nonces on small inputs.
use arduino_yun_bridge.Base.{◌≡◌, ◌≢◌, refl, true, some, [], ◌∷◌, Bytes}
use arduino_yun_bridge.Base.Ints.{to_bytes_be, from_bytes_be}
use arduino_yun_bridge.Security.{
  secure_zero, generate_nonce_with_counter, extract_nonce_counter, validate_nonce_counter,
}
use arduino_yun_bridge.Security.Replay.{send, nonce_never_reused}

runs : Unit {0}
unfolding generate_nonce_with_counter extract_nonce_counter validate_nonce_counter to_bytes_be
    from_bytes_be secure_zero
runs = tt

abbrev random : Bytes
random = 9 ∷ 9 ∷ 9 ∷ 9 ∷ []

abbrev first : Bytes
first = 9 ∷ 9 ∷ 9 ∷ 9 ∷ 0 ∷ 0 ∷ 0 ∷ 0 ∷ 0 ∷ 0 ∷ 1 ∷ 0 ∷ []

abbrev second : Bytes
second = 9 ∷ 9 ∷ 9 ∷ 9 ∷ 0 ∷ 0 ∷ 0 ∷ 0 ∷ 0 ∷ 0 ∷ 1 ∷ 2 ∷ []

made : generate_nonce_with_counter random 255 ≡ some (first, 256)
unfolding runs
made = refl

made_later : generate_nonce_with_counter random 257 ≡ some (second, 258)
unfolding runs
made_later = refl

sent_between : send 256 (random ∷ []) ≡ some 257
unfolding runs
sent_between = refl

taken : validate_nonce_counter first 3 ≡ (true, 256)
unfolding runs
taken = refl

wiped : secure_zero random ≡ 0 ∷ 0 ∷ 0 ∷ 0 ∷ []
unfolding runs
wiped = refl

nonce_never_reused_example : first ≢ second
nonce_never_reused_example =
    nonce_never_reused random random (random ∷ []) 255 refl refl made sent_between made_later
