-- ===== src/Handshake/Steps.antt =====
-- What each part of the handshake does to the fields that the link's safety rests on.
use arduino_yun_bridge.Base.{ℕ, ◌+◌, ◌≡◌, true, none, some, arith, Bytes, is_empty, if◌then◌else◌}
use arduino_yun_bridge.Link.{
  Link, Phase, connected, Reason, Detail, is_synchronized, mark_transport_connected,
  mark_synchronized,
}
use arduino_yun_bridge.Link
use arduino_yun_bridge.Handshake.{synchronized, fault, Kdf, Config, Manager, Clock}
use arduino_yun_bridge.Handshake.Failure.{handle_handshake_failure}
use arduino_yun_bridge.Handshake.Response.{calculate_session_key, establish}

-- The fields of `b` that a failure leaves as they are in `a`.
pub record Keeps (a b : Link) : Type 0 where
  pub event : b.link_sync_event ≡ a.link_sync_event
  pub nonce : b.link_handshake_nonce ≡ a.link_handshake_nonce
  pub tag : b.link_expected_tag ≡ a.link_expected_tag
  pub key : b.link_session_key ≡ a.link_session_key
  pub attempts : b.handshake_attempts ≡ a.handshake_attempts
  pub successes : b.handshake_successes ≡ a.handshake_successes

pub record IsFailed (m m' : Manager) : Type 0 where
  pub fsm : m'.fsm_state ≡ fault
  pub phase : m'.link.phase ≡ connected
  pub streak : m'.link.handshake_failure_streak ≡ m.link.handshake_failure_streak + 1
  pub keeps : Keeps m.link m'.link

module _ (cfg : Config) (clock : Clock) where
  pub failure-IsFailed :
      (reason : Reason) (text : Detail) (m : Manager)
      → IsFailed m (handle_handshake_failure cfg clock reason text m)
  failure-IsFailed reason text m = unfold handle_handshake_failure in ground arith

  module _ (kdf : Kdf) where
    pub record IsEstablished (nonce : Bytes) (m m' : Manager) : Type 0 where
      pub fsm : m'.fsm_state ≡ synchronized
      pub phase : m'.link.phase ≡ Link.Phase.synchronized
      pub event : m'.link.link_sync_event ≡ true
      pub pending : m'.link.link_handshake_nonce ≡ none
      pub tag : m'.link.link_expected_tag ≡ none
      pub key : m'.link.link_session_key ≡ (
          if is_empty cfg.serial_shared_secret
          then m.link.link_session_key
          else some (calculate_session_key kdf cfg.serial_shared_secret nonce))
      pub attempts : m'.link.handshake_attempts ≡ m.link.handshake_attempts
      pub successes : m'.link.handshake_successes ≡ m.link.handshake_successes + 1

    pub establish-IsEstablished :
        (seq_id : ℕ) (nonce : Bytes) (m : Manager)
        → IsEstablished nonce m (establish kdf cfg clock seq_id nonce m)
    establish-IsEstablished seq_id nonce m = unfold establish in ground arith
