-- ===== src/Security/Replay.antt =====
-- Runs of nonces: what a sender makes, and what a receiver takes.
use arduino_yun_bridge.Base.{
  ℕ, ◌+◌, ◌≤◌, ◌≡◌, ◌≢◌, true, false, Option, none, some, List, [], ◌∷◌, arith, Bytes, length,
  Option-cases, inl, inr,
}
use arduino_yun_bridge.Security.{generate_nonce_with_counter, validate_nonce_counter}
use arduino_yun_bridge.Security.Nonces.{extract-generate}

-- The receiver's counter after a run of nonces, taken or not.
abbrev pub receive : ℕ → List Bytes → ℕ
receive last [] = last
receive last (n ∷ ns) = receive (validate_nonce_counter n last).1 ns

-- The sender's counter after a run of generated nonces, each with its random bytes; `none` once a
-- generation fails.
abbrev pub send : ℕ → List Bytes → Option ℕ
send counter [] = some counter
send counter (r ∷ rs) = elim (generate_nonce_with_counter r counter) [
  | none ↦ none
  | some (_, counter') ↦ send counter' rs
]

generate_next :
    (random : Bytes) (counter : ℕ) {nonce : Bytes} {counter' : ℕ}
    → generate_nonce_with_counter random counter ≡ some (nonce, counter')
    → counter' ≡ counter + 1
generate_next random counter made = unfold generate_nonce_with_counter in ground arith

le-validate : (nonce : Bytes) (last : ℕ) → last ≤ (validate_nonce_counter nonce last).1
le-validate nonce last = unfold validate_nonce_counter in ground arith

pub le-receive : (last : ℕ) (ns : List Bytes) → last ≤ receive last ns
le-receive last [] = omega arith
le-receive last (n ∷ ns) =
    omega (arith, le-validate n last, le-receive (validate_nonce_counter n last).1 ns)

-- Once a receiver has taken a nonce, it refuses that nonce for ever, whatever nonces came between.
pub replayed_nonce_refused :
    (nonce : Bytes) (last counter : ℕ) (between : List Bytes)
    → validate_nonce_counter nonce last ≡ (true, counter)
    → validate_nonce_counter nonce (receive counter between) ≡ (false, receive counter between)
replayed_nonce_refused nonce last counter between taken =
    let later = le-receive counter between in unfold validate_nonce_counter in ground arith

le-send : (counter later : ℕ) (rs : List Bytes) → send counter rs ≡ some later → counter ≤ later
le-send counter later [] h = ground arith
le-send counter later (r ∷ rs) h = elim (Option-cases (generate_nonce_with_counter r counter)) [
  | inl e ↦ ground (arith, e)
  | inr ((n, counter'), e) ↦
      let next = generate_next r counter e in ground (arith, e, le-send counter' later rs)
]

-- The nonces of one run of a sender's counter are all different: a nonce that is generated after any
-- others, each from the counter that the one before it left, differs from the first, even when the random
-- bytes repeat.
pub nonce_never_reused :
    (random random' : Bytes) (between : List Bytes) (c : ℕ) {c' later later' : ℕ} {n n' : Bytes}
    → length random ≡ 4
    → length random' ≡ 4
    → generate_nonce_with_counter random c ≡ some (n, c')
    → send c' between ≡ some later
    → generate_nonce_with_counter random' later ≡ some (n', later')
    → n ≢ n'
nonce_never_reused random random' between c {c'} {later} four four' first run second same =
    let (carried, _, _) = extract-generate random c four first in
    let (carried', next, _) = extract-generate random' later four' second in
    let le = le-send c' later between run in ground (arith, same, carried, carried', next, le)
