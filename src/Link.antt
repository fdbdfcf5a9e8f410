-- ===== src/Link.antt =====
-- mcubridge/mcubridge/state/context.py: the part of `RuntimeState` that the serial link and its
-- handshake share, and the methods on it. Times are milliseconds. `self.state` is a text there, one of
-- three. The Prometheus counters and log lines that only mirror a field are left out.
use arduino_yun_bridge.Base.{
  ℕ, ◌-◌, Bool, true, false, Option, none, some, ◌==◌, if◌then◌else◌, Bytes, is_empty, not,
}

pub data Phase : Type 0 where
  disconnected connected synchronized : Phase

-- Why a handshake failed: the texts that handshake.py passes to `handle_handshake_failure`.
pub data Reason : Type 0 where
  link_reset_send_failed link_sync_send_failed link_sync_timeout unexpected_sync_resp : Reason
  sync_rate_limited sync_decode_failed sync_auth_mismatch : Reason

-- The detail text of a failure: none, `nonce_or_tag_mismatch`, or
-- `failure_streak_exceeded_<threshold>`.
pub data Detail : Type 0 where
  no_detail nonce_or_tag_mismatch : Detail
  failure_streak_exceeded : ℕ → Detail

pub record Link : Type 0 where
  pub phase : Phase
  pub link_sync_event : Bool
  pub serial_tx_allowed : Bool
  pub mcu_is_paused : Bool
  pub link_handshake_nonce : Option Bytes
  pub link_expected_tag : Option Bytes
  pub link_nonce_length : ℕ
  pub link_session_key : Option Bytes
  pub link_nonce_counter : ℕ
  pub link_last_nonce_counter : ℕ
  pub handshake_attempts : ℕ
  pub handshake_successes : ℕ
  pub handshake_failure_streak : ℕ
  pub handshake_backoff_until : ℕ
  pub handshake_rate_until : ℕ
  pub last_handshake_error : Option Reason
  pub last_handshake_unix : ℕ
  pub handshake_last_started : ℕ
  pub handshake_last_duration : ℕ
  pub handshake_fatal_count : ℕ
  pub handshake_fatal_reason : Option Reason
  pub handshake_fatal_detail : Detail
  pub handshake_fatal_unix : ℕ

-- `RuntimeState()` as far as the link goes, after `serial_tx_allowed.set()`.
abbrev pub initial : Link
initial = record {
  phase = disconnected;
  link_sync_event = false;
  serial_tx_allowed = true;
  mcu_is_paused = false;
  link_handshake_nonce = none;
  link_expected_tag = none;
  link_nonce_length = 0;
  link_session_key = none;
  link_nonce_counter = 0;
  link_last_nonce_counter = 0;
  handshake_attempts = 0;
  handshake_successes = 0;
  handshake_failure_streak = 0;
  handshake_backoff_until = 0;
  handshake_rate_until = 0;
  last_handshake_error = none;
  last_handshake_unix = 0;
  handshake_last_started = 0;
  handshake_last_duration = 0;
  handshake_fatal_count = 0;
  handshake_fatal_reason = none;
  handshake_fatal_detail = no_detail;
  handshake_fatal_unix = 0;
}

unfoldable pub is_connected : Link → Bool
is_connected l = elim l.phase [ disconnected ↦ false | connected ↦ true | synchronized ↦ true ]

unfoldable pub is_synchronized : Link → Bool
is_synchronized l = elim l.phase [ disconnected ↦ false | connected ↦ false | synchronized ↦ true ]

unfoldable pub mark_transport_connected : Link → Link
mark_transport_connected l = record l { phase = connected }

unfoldable pub mark_transport_disconnected : Link → Link
mark_transport_disconnected l = record l { phase = disconnected; link_sync_event = false }

unfoldable pub mark_synchronized : Link → Link
mark_synchronized l = record l { phase = synchronized; link_sync_event = true }

-- `max(0.0, time.monotonic() - started)`, and 0 before any start
unfoldable pub handshake_duration_since_start : ℕ → Link → ℕ
handshake_duration_since_start now l =
    if l.handshake_last_started == 0 then 0 else now - l.handshake_last_started

-- `attempts - successes`; a negative difference would be below 0
unfoldable pub handshake_failures : Link → ℕ
handshake_failures l = l.handshake_attempts - l.handshake_successes

-- `pb.HandshakeSnapshot`
pub record Snapshot : Type 0 where
  pub synchronised : Bool
  pub attempts : ℕ
  pub successes : ℕ
  pub failures : ℕ
  pub failure_streak : ℕ
  pub last_error : Option Reason
  pub last_unix : ℕ
  pub last_duration : ℕ
  pub backoff_until : ℕ
  pub rate_limit_until : ℕ
  pub fatal_count : ℕ
  pub fatal_reason : Option Reason
  pub fatal_detail : Detail
  pub fatal_unix : ℕ
  pub pending_nonce : Bool
  pub nonce_length : ℕ

-- `bool(self.link_handshake_nonce)`
abbrev has_bytes : Option Bytes → Bool
has_bytes none = false
has_bytes (some b) = not (is_empty b)

unfoldable pub build_handshake_snapshot : Link → Snapshot
unfolding is_synchronized handshake_failures
build_handshake_snapshot l = record {
  synchronised = is_synchronized l;
  attempts = l.handshake_attempts;
  successes = l.handshake_successes;
  failures = handshake_failures l;
  failure_streak = l.handshake_failure_streak;
  last_error = l.last_handshake_error;
  last_unix = l.last_handshake_unix;
  last_duration = l.handshake_last_duration;
  backoff_until = l.handshake_backoff_until;
  rate_limit_until = l.handshake_rate_until;
  fatal_count = l.handshake_fatal_count;
  fatal_reason = l.handshake_fatal_reason;
  fatal_detail = l.handshake_fatal_detail;
  fatal_unix = l.handshake_fatal_unix;
  pending_nonce = has_bytes l.link_handshake_nonce;
  nonce_length = l.link_nonce_length;
}
