-- ===== src/Handshake/Tests.antt =====
-- One run of the handshake: a concrete key derivation, a course in which the right answer arrives while
-- the manager waits, and the theorems of this folder at it.
use arduino_yun_bridge.Base.{
  Bool, zero, suc, ℕ, ◌+◌, ◌≡◌, ◌↔◌, refl, true, false, none, some, [], ◌∷◌, ◌++◌, arith, Bytes,
}
use arduino_yun_bridge.Link.{connected, initial, link_sync_timeout, is_synchronized}
use arduino_yun_bridge.Handshake.{
  fault, unsynchronized, Kdf, Config, LinkSync, Manager, Clock, set_fsm_state,
}
use arduino_yun_bridge.Handshake.Failure.{backoff_delay}
use arduino_yun_bridge.Handshake.Response.{
  handle_link_sync_resp, calculate_handshake_tag, calculate_session_key, is_throttled,
  check_decoded, check_packet, is_forged, open_window, establish,
}
use arduino_yun_bridge.Handshake.Sync.{Course, synchronize_attempt}
use arduino_yun_bridge.Handshake.Authentic.{IsGenuine, accepted_iff}
use arduino_yun_bridge.Handshake.Coupling.{IsCoupled}
use arduino_yun_bridge.Handshake.Attempt.{attempt_keys}
use arduino_yun_bridge.Handshake.Retry.{
  Retrying, IsRetrying, go_on, synchronize, synchronize_lem, final_state,
}
use arduino_yun_bridge.Handshake.Accounts.{unexpected_answer_tears_down}

-- The key is the secret before the salt, the digest the message before the key.
abbrev kdf : Kdf
kdf = record { hkdf = λ secret salt info. secret ++ salt; hmac = λ key message. message ++ key }

abbrev cfg : Config
cfg = record {
  serial_shared_secret = 7 ∷ 8 ∷ 9 ∷ [];
  serial_handshake_min_interval = 0;
  serial_handshake_fatal_failures = 3;
}

abbrev clock : Clock
clock = record { monotonic = 5000; unix = 100 }

abbrev fresh : Manager
fresh = record { fsm_state = unsynchronized; link = initial; effects = [] }

fresh-IsCoupled : IsCoupled fresh
fresh-IsCoupled = record {
  machine = λ h. ground arith;
  event = λ h. ground arith;
  counted = omega arith;
}

abbrev challenge : Bytes
challenge = 1 ∷ 2 ∷ 3 ∷ 4 ∷ 5 ∷ 6 ∷ 7 ∷ 8 ∷ 9 ∷ 10 ∷ 11 ∷ 12 ∷ 13 ∷ 14 ∷ 15 ∷ 16 ∷ []

-- The tag of the toy HMAC is the challenge itself.
abbrev right : LinkSync
right = record { nonce = challenge; tag = challenge }

abbrev course : Course
course = record {
  nonce = challenge;
  start = clock;
  failed_at = clock;
  reset_ok = true;
  sync_ok = true;
  in_backoff = [];
  in_reset = [];
  in_settling = [];
  in_syncing = [];
  in_sync = [];
  in_wait = record { clock = clock; seq_id = 4; payload = some right } ∷ [];
}

course_succeeds : (synchronize_attempt kdf cfg course fresh).1 ≡ true
unfolding synchronize_attempt set_fsm_state establish handle_link_sync_resp is_throttled
    check_decoded check_packet is_forged open_window calculate_handshake_tag
course_succeeds = refl

-- The manager while it waits for `challenge`.
abbrev waiting : Manager
waiting = record fresh {
  link = record initial {
    link_handshake_nonce = some challenge;
    link_expected_tag = some challenge;
    handshake_attempts = 1;
  };
}

accepted : (handle_link_sync_resp kdf cfg clock 4 (some right) waiting).1 ≡ true
unfolding handle_link_sync_resp is_throttled check_decoded check_packet is_forged open_window
    calculate_handshake_tag
accepted = refl

refused : (handle_link_sync_resp kdf cfg clock 4 none waiting).1 ≡ false
unfolding handle_link_sync_resp is_throttled check_decoded check_packet is_forged open_window
    calculate_handshake_tag
refused = refl

accepted_iff_example :
    ((handle_link_sync_resp kdf cfg clock 4 (some right) waiting).1 ≡ true)
    ↔ ((packet : LinkSync) × (some right ≡ some packet) × IsGenuine kdf cfg clock 4 packet waiting)
accepted_iff_example = accepted_iff kdf cfg clock 4 (some right) waiting

attempt_keys_example :
    (synchronize_attempt kdf cfg course fresh).0.link.link_session_key
    ≡ some (calculate_session_key kdf cfg.serial_shared_secret challenge)
attempt_keys_example = attempt_keys kdf cfg course fresh fresh-IsCoupled refl course_succeeds

delay_4 : backoff_delay link_sync_timeout 4 ≡ some 2000
unfolding backoff_delay
delay_4 = refl

delay_20 : backoff_delay link_sync_timeout 20 ≡ some 60000
unfolding backoff_delay
delay_20 = refl

-- The answer that the course accepted comes once more.
abbrev synchronised : Manager
synchronised = (synchronize_attempt kdf cfg course fresh).0

unexpected_answer_tears_down_example :
    let m' = (handle_link_sync_resp kdf cfg clock 5 (some right) synchronised).0 in
    (m'.fsm_state ≡ fault)
    × (m'.link.phase ≡ connected)
    × (m'.link.link_sync_event ≡ synchronised.link.link_sync_event)
    × (m'.link.link_session_key ≡ synchronised.link.link_session_key)
unfolding synchronize_attempt set_fsm_state establish handle_link_sync_resp is_throttled
    check_decoded check_packet is_forged open_window calculate_handshake_tag
unexpected_answer_tears_down_example =
    unexpected_answer_tears_down cfg clock kdf 5 (some right) synchronised refl

-- Retrying, as tenacity documents it.
abbrev unless_done : {M : Type 0} → (M → M × Bool) → M × Bool → M × Bool
unless_done again (m, true) = (m, true)
unless_done again (m, false) = again m

abbrev retry : {M : Type 0} → ℕ → (ℕ → M → M × Bool) → ℕ → M → M × Bool
retry zero attempt number m = (m, false)
retry (suc zero) attempt number m = attempt number m
retry (suc (suc left)) attempt number m =
    unless_done (λ m'. retry (suc left) attempt (number + 1) m') (attempt number m)

abbrev retrying : Retrying
retrying = record { run = λ left attempt number m. retry left attempt number m }

retry_goes_on :
    {M : Type 0} (left : ℕ) (attempt : ℕ → M → M × Bool) (number : ℕ) (r : M × Bool)
    → unless_done (λ m'. retry left attempt number m') r ≡ go_on retrying left attempt number r
retry_goes_on left attempt number (m, true) = refl
retry_goes_on left attempt number (m, false) = refl

retrying-IsRetrying : IsRetrying retrying
retrying-IsRetrying = record {
  last = λ attempt number m. refl;
  next = λ left attempt number m. retry_goes_on (suc left) attempt (number + 1) (attempt number m);
}

-- The first send fails, a late answer comes in the sleep, and the second attempt is answered.
abbrev courses : ℕ → Course
courses zero = record course { reset_ok = false }
courses (suc number) = record course {
  in_backoff = record { clock = clock; seq_id = 3; payload = some right } ∷ [];
}

synchronize_lem_example :
    (IsCoupled (synchronize retrying kdf cfg courses fresh).0
      × ((synchronize retrying kdf cfg courses fresh).1
          ≡ is_synchronized (synchronize retrying kdf cfg courses fresh).0.link))
    × ((synchronize retrying kdf cfg courses fresh).0.fsm_state
        ≡ final_state retrying kdf cfg (synchronize retrying kdf cfg courses fresh).1)
synchronize_lem_example =
    synchronize_lem retrying kdf cfg retrying-IsRetrying courses fresh fresh-IsCoupled
