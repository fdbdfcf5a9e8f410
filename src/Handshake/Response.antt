-- ===== src/Handshake/Response.antt =====
-- The answers of the MCU in services/handshake.py: `handle_link_sync_resp` and what it calls.
use arduino_yun_bridge.Base.{
  ℕ, ◌+◌, Bool, true, false, ◌||◌, ◌&&◌, not, Option, none, some, [], ltb, ◌==◌, if◌then◌else◌,
  Bytes, codes, text_eq, length, take, is_empty,
}
use arduino_yun_bridge.Protocol.{aead_tag_size}
use arduino_yun_bridge.Protocol.Command
use arduino_yun_bridge.Protocol.Status.{Status, malformed}
use arduino_yun_bridge.Link.{
  Link, no_detail, nonce_or_tag_mismatch, sync_auth_mismatch, unexpected_sync_resp,
  sync_rate_limited, sync_decode_failed, mark_synchronized, handshake_duration_since_start,
}
use arduino_yun_bridge.Handshake.{
  synchronized, Kdf, Config, acknowledged, capabilities_scheduled, Manager, LinkSync, Clock, emit,
  with_link, set_fsm_state,
}
use arduino_yun_bridge.Handshake.Failure.{handle_handshake_failure, publish_handshake_event}

module _ (kdf : Kdf) where
  -- The key derived for authentication, and 16 bytes of the HMAC under it; no secret gives no tag.
  unfoldable pub calculate_handshake_tag : Bytes → Bytes → Bytes
  calculate_handshake_tag secret nonce =
      if is_empty secret
      then []
      else take aead_tag_size
          (kdf.hmac (kdf.hkdf secret (codes "mcubridge-v2") (codes "handshake-auth")) nonce)

  unfoldable pub calculate_session_key : Bytes → Bytes → Bytes
  calculate_session_key secret nonce = kdf.hkdf secret nonce (codes "session-key")

-- The two buffers that `secure_zero` wipes are copies; what the state keeps is dropped.
unfoldable pub clear_expectations : Link → Link
clear_expectations l = record l {
  link_handshake_nonce = none;
  link_expected_tag = none;
  link_nonce_length = 0;
}

unfoldable pub clear_handshake_expectations : Manager → Manager
unfolding clear_expectations
clear_handshake_expectations m = with_link m (clear_expectations m.link)

unfoldable pub record_success : Clock → Link → Link
record_success clock l = mark_synchronized (record l {
  handshake_failure_streak = 0;
  handshake_backoff_until = 0;
  last_handshake_error = none;
  last_handshake_unix = clock.unix;
  handshake_last_duration = handshake_duration_since_start clock.monotonic l;
  handshake_successes = l.handshake_successes + 1;
})

unfoldable pub handle_handshake_success : Clock → Manager → Manager
unfolding record_success publish_handshake_event mark_synchronized
handle_handshake_success clock m =
    publish_handshake_event true none no_detail (with_link m (record_success clock m.link))

-- A refusal acknowledges the frame with MALFORMED before the failure is recorded.
abbrev pub refuse : Status → ℕ → Manager → Manager
refuse status seq_id m = emit (acknowledged Command.link_sync_resp seq_id status) m

-- The window of the rate limit, and the next window where the answer is let through.
unfoldable pub is_throttled : Config → ℕ → Link → Bool
is_throttled cfg now l = ltb 0 cfg.serial_handshake_min_interval && ltb now l.handshake_rate_until

unfoldable pub open_window : Config → ℕ → Manager → Manager
open_window cfg now m =
    if ltb 0 cfg.serial_handshake_min_interval
    then with_link m
        (record m.link { handshake_rate_until = now + cfg.serial_handshake_min_interval })
    else m

abbrev is_none : Option Bytes → Bool
is_none none = true
is_none (some b) = false

module _ (kdf : Kdf) (cfg : Config) (clock : Clock) (seq_id : ℕ) where
  -- The session key is derived where a secret is configured.
  unfoldable pub establish : Bytes → Manager → Manager
  unfolding clear_handshake_expectations handle_handshake_success set_fsm_state mark_synchronized
  establish nonce m =
      let keyed =
        if is_empty cfg.serial_shared_secret
        then m
        else with_link m (record m.link {
          link_session_key = some (calculate_session_key kdf cfg.serial_shared_secret nonce);
        }) in
      emit capabilities_scheduled (
        handle_handshake_success clock
          (clear_handshake_expectations (set_fsm_state synchronized keyed)))

  -- `missing_expected_tag or bad_tag_length or tag_mismatch`
  unfoldable pub is_forged : LinkSync → Link → Bool
  is_forged packet l =
      is_none l.link_expected_tag
      || not (length packet.tag == aead_tag_size)
      || not
          (text_eq packet.tag (calculate_handshake_tag kdf cfg.serial_shared_secret packet.nonce))

  unfoldable pub check_packet : Bytes → LinkSync → Manager → Manager × Bool
  check_packet expected packet m =
      if not (text_eq packet.nonce expected)
      then (m, false)
      else if is_forged packet m.link
      then (
        handle_handshake_failure cfg clock sync_auth_mismatch nonce_or_tag_mismatch
            (clear_handshake_expectations (refuse malformed seq_id m)),
        false,
      )
      else (establish packet.nonce m, true)

  unfoldable pub check_decoded : Bytes → Option LinkSync → Manager → Manager × Bool
  check_decoded expected none m = (
    handle_handshake_failure cfg clock sync_decode_failed no_detail
        (clear_handshake_expectations (refuse malformed seq_id m)),
    false,
  )
  check_decoded expected (some packet) m = check_packet expected packet m

  -- The test for a pending challenge and the rate limit.
  unfoldable pub check_pending : Option Bytes → Option LinkSync → Manager → Manager × Bool
  check_pending none payload m = (
    handle_handshake_failure cfg clock unexpected_sync_resp no_detail (refuse malformed seq_id m),
    false,
  )
  check_pending (some expected) payload m =
      if is_throttled cfg clock.monotonic m.link
      then (
        handle_handshake_failure cfg clock sync_rate_limited no_detail (refuse malformed seq_id m),
        false,
      )
      else check_decoded expected payload (open_window cfg clock.monotonic m)

  -- `payload` is the packet, or `none` if its bytes do not decode.
  unfoldable pub handle_link_sync_resp : Option LinkSync → Manager → Manager × Bool
  unfolding check_pending
  handle_link_sync_resp payload m = check_pending m.link.link_handshake_nonce payload m
