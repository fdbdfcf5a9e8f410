-- ===== src/Handshake/Authentic.antt =====
-- When `handle_link_sync_resp` accepts an answer, and what follows from each outcome.
use arduino_yun_bridge.Base.{
  ℕ, ◌≡◌, ◌≢◌, refl, ◌↔◌, ◌⊎◌, inl, inr, Bool, true, false, Option, none, some, arith, Bytes,
  length, text_eq, text_eq_iff, text_eq_refl, Option-cases, Bool-cases,
}
use arduino_yun_bridge.Handshake.Failure.{handle_handshake_failure}
use arduino_yun_bridge.Link.{
  Reason, Detail, connected, sync_auth_mismatch, nonce_or_tag_mismatch, no_detail,
  unexpected_sync_resp, sync_rate_limited, sync_decode_failed,
}
use arduino_yun_bridge.Protocol.Status.{malformed}
use arduino_yun_bridge.Handshake.{fault, Kdf, Config, Manager, LinkSync, Clock}
use arduino_yun_bridge.Handshake.Response.{
  check_pending, calculate_handshake_tag, clear_handshake_expectations, refuse, is_throttled,
  open_window, is_forged, check_packet, check_decoded, handle_link_sync_resp,
}
use arduino_yun_bridge.Handshake.Steps.{
  Keeps, failure-IsFailed, IsEstablished, establish-IsEstablished,
}

-- The machine and the link are as before, but for the rate limit's window.
pub record IsUntouched (m m' : Manager) : Type 0 where
  pub fsm : m'.fsm_state ≡ m.fsm_state
  pub phase : m'.link.phase ≡ m.link.phase
  pub keeps : Keeps m.link m'.link

-- The machine is at fault and the link is not synchronised; the pending challenge is kept or closed.
pub record IsTornDown (m m' : Manager) : Type 0 where
  pub fsm : m'.fsm_state ≡ fault
  pub phase : m'.link.phase ≡ connected
  pub event : m'.link.link_sync_event ≡ m.link.link_sync_event
  pub nonce :
      (m'.link.link_handshake_nonce ≡ none)
      ⊎ (m'.link.link_handshake_nonce ≡ m.link.link_handshake_nonce)
  pub key : m'.link.link_session_key ≡ m.link.link_session_key
  pub attempts : m'.link.handshake_attempts ≡ m.link.handshake_attempts
  pub successes : m'.link.handshake_successes ≡ m.link.handshake_successes

module _ (kdf : Kdf) (cfg : Config) (clock : Clock) (seq_id : ℕ) where
  -- The packet answers the pending challenge, outside the rate limit, with the right tag.
  pub record IsGenuine (packet : LinkSync) (m : Manager) : Type 0 where
    pub pending : m.link.link_handshake_nonce ≡ some packet.nonce
    pub unthrottled : is_throttled cfg clock.monotonic m.link ≡ false
    pub tag_pending : m.link.link_expected_tag ≢ none
    pub tag_length : length packet.tag ≡ 16
    pub tag : packet.tag ≡ calculate_handshake_tag kdf cfg.serial_shared_secret packet.nonce

  accepted-IsGenuine :
      (payload : Option LinkSync) (m : Manager)
      → (handle_link_sync_resp kdf cfg clock seq_id payload m).1 ≡ true
      → (packet : LinkSync) × (payload ≡ some packet) × IsGenuine packet m
  accepted-IsGenuine none m h =
      absurd (unfold handle_link_sync_resp check_decoded check_packet open_window in ground arith)
  accepted-IsGenuine (some packet) m h = elim (Option-cases m.link.link_handshake_nonce) [
    | inl e ↦
        absurd
          (unfold handle_link_sync_resp check_decoded check_packet open_window in ground (arith, e))
    | inr (expected, e) ↦
        let same_nonce = text_eq_iff packet.nonce expected in
        let tag = calculate_handshake_tag kdf cfg.serial_shared_secret packet.nonce in
        let same_tag = text_eq_iff packet.tag tag in
        unfold handle_link_sync_resp check_decoded check_packet open_window is_forged in
        (
          packet,
          refl,
          record {
            pending = ground (arith, e, same_nonce, same_tag);
            unthrottled = unfold is_throttled in ground (arith, e);
            tag_pending = λ x. ground (arith, e, x);
            tag_length = ground (arith, e);
            tag = ground (arith, e, same_nonce, same_tag);
          },
        )
  ]

  accepted_of_genuine :
      (packet : LinkSync) (m : Manager)
      → IsGenuine packet m
      → (handle_link_sync_resp kdf cfg clock seq_id (some packet) m).1 ≡ true
  accepted_of_genuine packet m g =
      let tag = calculate_handshake_tag kdf cfg.serial_shared_secret packet.nonce in
      unfold handle_link_sync_resp check_decoded check_packet open_window is_forged in
      ground (arith, text_eq_refl packet.nonce, text_eq_iff packet.tag tag)

  -- An answer is accepted exactly if it decodes to a packet whose nonce is the pending challenge, outside
  -- the rate limit, with a pending tag, and with the 16 byte tag that the secret gives for this nonce.
  pub accepted_iff :
      (payload : Option LinkSync) (m : Manager)
      → ((handle_link_sync_resp kdf cfg clock seq_id payload m).1 ≡ true)
        ↔ ((packet : LinkSync) × (payload ≡ some packet) × IsGenuine packet m)
  accepted_iff payload m =
      (accepted-IsGenuine payload m, λ (packet, e, g). rw e (accepted_of_genuine packet m g))

  -- An accepted answer to the challenge `packet.nonce` synchronises the machine and the link, derives
  -- the session key from this nonce (where a secret is configured) and closes the challenge.
  pub accepted_establishes :
      (packet : LinkSync) (m : Manager)
      → (handle_link_sync_resp kdf cfg clock seq_id (some packet) m).1 ≡ true
      → IsEstablished cfg clock kdf packet.nonce m
          (handle_link_sync_resp kdf cfg clock seq_id (some packet) m).0
  accepted_establishes packet m h =
      let built =
        establish-IsEstablished cfg clock kdf seq_id packet.nonce
          (open_window cfg clock.monotonic m) in
      unfold handle_link_sync_resp check_decoded check_packet open_window in ground (arith, built)

  -- The manager on which a failure is recorded before, or behind, the rate limit.
  abbrev early : Manager → Manager
  early m = refuse malformed seq_id m

  abbrev late : Manager → Manager
  late m =
      clear_handshake_expectations (refuse malformed seq_id (open_window cfg clock.monotonic m))

  early-IsTornDown :
      (reason : Reason) (m : Manager)
      → IsTornDown m (handle_handshake_failure cfg clock reason no_detail (early m))
  early-IsTornDown reason m =
      let failed = failure-IsFailed cfg clock reason no_detail (early m) in ground (arith, failed)

  late-IsTornDown :
      (reason : Reason) (text : Detail) (m : Manager)
      → IsTornDown m (handle_handshake_failure cfg clock reason text (late m))
  late-IsTornDown reason text m =
      let failed = failure-IsFailed cfg clock reason text (late m) in
      unfold clear_handshake_expectations open_window in ground (arith, failed)

  untouched : (m : Manager) → IsUntouched m (open_window cfg clock.monotonic m)
  untouched m = unfold open_window in ground arith

  abbrev Outcome : Manager → Manager × Bool → Type 0
  Outcome m r = r.1 ≡ false → IsUntouched m r.0 ⊎ IsTornDown m r.0

  packet_outcome :
      (expected : Bytes) (packet : LinkSync) (m : Manager)
      → Outcome m
          (check_packet kdf cfg clock seq_id expected packet (open_window cfg clock.monotonic m))
  packet_outcome expected packet m =
      let m' = open_window cfg clock.monotonic m in
      elim (Bool-cases (text_eq packet.nonce expected)) [
        | inr ne ↦ unfold check_packet in rw ne (λ h. inl (untouched m))
        | inl eq ↦ elim (Bool-cases (is_forged kdf cfg clock seq_id packet m'.link)) [
          | inl forged ↦
              unfold check_packet in
              rw (eq, forged)
                (λ h. inr (late-IsTornDown sync_auth_mismatch nonce_or_tag_mismatch m))
          | inr genuine ↦ unfold check_packet in rw (eq, genuine) (λ h. absurd (ground arith))
        ]
      ]

  decoded_outcome :
      (expected : Bytes) (payload : Option LinkSync) (m : Manager)
      → Outcome m
          (check_decoded kdf cfg clock seq_id expected payload (open_window cfg clock.monotonic m))
  decoded_outcome expected none m h =
      unfold check_decoded in inr (late-IsTornDown sync_decode_failed no_detail m)
  decoded_outcome expected (some packet) m h =
      unfold check_decoded in packet_outcome expected packet m h

  pending_outcome :
      (pending : Option Bytes) (payload : Option LinkSync) (m : Manager)
      → Outcome m (check_pending kdf cfg clock seq_id pending payload m)
  pending_outcome none payload m h =
      unfold check_pending in inr (early-IsTornDown unexpected_sync_resp m)
  pending_outcome (some expected) payload m h =
      elim (Bool-cases (is_throttled cfg clock.monotonic m.link)) [
        | inl t ↦ unfold check_pending in rw t (inr (early-IsTornDown sync_rate_limited m))
        | inr t ↦
            unfold check_pending in
            rw t (decoded_outcome expected payload m (unfold check_pending in rw t at h))
      ]

  -- What a refused answer does: nothing to the machine and the link's secrets (a foreign nonce), or a
  -- failure, after which the machine is at fault and the link is not synchronised; the session key
  -- and the counts of attempts and successes stay in both cases.
  pub refused_outcome :
      (payload : Option LinkSync) (m : Manager)
      → (handle_link_sync_resp kdf cfg clock seq_id payload m).1 ≡ false
      → IsUntouched m (handle_link_sync_resp kdf cfg clock seq_id payload m).0
        ⊎ IsTornDown m (handle_link_sync_resp kdf cfg clock seq_id payload m).0
  refused_outcome payload m =
      unfold handle_link_sync_resp in pending_outcome m.link.link_handshake_nonce payload m
