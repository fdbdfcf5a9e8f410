-- ===== src/Handshake.antt =====
-- mcubridge/mcubridge/services/handshake.py: the handshake manager. What it does to the world is a
-- list of effects, the last one first. HKDF and HMAC of the cryptography package are the parameter
-- `Kdf`; the clock readings, the random nonce, the results of sends and the decoded packets are
-- arguments.
pub mod Failure
pub mod Response
pub mod Sync
pub mod Retry
mod Steps
pub mod Authentic
pub mod Coupling
mod Accounts
pub mod Attempt
mod Tests
use arduino_yun_bridge.Base.{
  ℕ, ◌+◌, ◌*◌, ◌-◌, ◌^◌, ◌≡◌, refl, Bool, true, false, ◌||◌, ◌&&◌, not, Option, none, some, List,
  [], ◌∷◌, leb, ltb, ◌==◌, if◌then◌else◌, Bytes, Text, codes, text_eq, length, take, is_empty, min,
  max,
}
use arduino_yun_bridge.Protocol.{aead_tag_size}
use arduino_yun_bridge.Protocol.Command
use arduino_yun_bridge.Protocol.Status.{Status, malformed}
use arduino_yun_bridge.Link.{
  Link, Reason, Detail, no_detail, nonce_or_tag_mismatch, failure_streak_exceeded,
  sync_auth_mismatch, link_reset_send_failed, link_sync_send_failed, link_sync_timeout,
  unexpected_sync_resp, sync_rate_limited, sync_decode_failed, is_synchronized,
  mark_transport_connected, mark_synchronized, handshake_duration_since_start, Snapshot,
  build_handshake_snapshot,
}

pub data HandshakeState : Type 0 where
  unsynchronized resetting syncing confirming synchronized fault : HandshakeState

-- Secret, salt and info to a key; key and message to a digest.
pub record Kdf : Type 0 where
  pub hkdf : Bytes → Bytes → Bytes → Bytes
  pub hmac : Bytes → Bytes → Bytes

pub record Config : Type 0 where
  pub serial_shared_secret : Bytes
  pub serial_handshake_min_interval : ℕ
  pub serial_handshake_fatal_failures : ℕ

pub data Effect : Type 0 where
  -- `send_frame` of a command
  sent : ℕ → Effect
  -- `acknowledge_frame(command, seq, status=...)`
  acknowledged : ℕ → ℕ → Status → Effect
  -- the handshake event that goes to the cloud
  published : Bool → Option Reason → Detail → HandshakeState → Snapshot → Effect
  -- the task that asks for the capabilities after two seconds
  capabilities_scheduled : Effect

-- The manager and the state that it shares.
pub record Manager : Type 0 where
  pub fsm_state : HandshakeState
  pub link : Link
  pub effects : List Effect

-- `pb.LinkSync`
pub record LinkSync : Type 0 where
  pub nonce : Bytes
  pub tag : Bytes

-- The clocks as a handler reads them: `time.monotonic()` and `time.time()`.
pub record Clock : Type 0 where
  pub monotonic : ℕ
  pub unix : ℕ

abbrev pub emit : Effect → Manager → Manager
emit x m = record m { effects = x ∷ m.effects }

abbrev pub with_link : Manager → Link → Manager
with_link m l = record m { link = l }

abbrev pub same_state : HandshakeState → HandshakeState → Bool
same_state unsynchronized unsynchronized = true
same_state resetting resetting = true
same_state syncing syncing = true
same_state confirming confirming = true
same_state synchronized synchronized = true
same_state fault fault = true
same_state _ _ = false

abbrev enter_link : HandshakeState → HandshakeState → Link → Link
enter_link old synchronized l = mark_synchronized l
enter_link synchronized new l = mark_transport_connected l
enter_link old new l = l

unfoldable pub set_fsm_state : HandshakeState → Manager → Manager
unfolding mark_synchronized mark_transport_connected
set_fsm_state new m =
    if same_state m.fsm_state new
    then m
    else record m { fsm_state = new; link = enter_link m.fsm_state new m.link }
