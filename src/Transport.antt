-- ===== src/Transport.antt =====
-- mcubridge/mcubridge/transport/serial.py: the serial transport, with `PendingCommand` of
-- mcubridge/mcubridge/protocol/structures.py. COBS/R of the cobs package is the parameter `Cobs`; the
-- random bytes of nonces and the outcome of writes are arguments. Frames that go to the service are
-- kept in a list, as are the packets that are written, the last one first. Debug lines and the
-- Prometheus counters are left out.
pub mod Correlation
pub mod Receive
pub mod Send
pub mod Session
mod Replay
mod Delivery
mod Tracking
mod Tests
use arduino_yun_bridge.Base.{
  ℕ, ◌+◌, ◌%◌, ◌^◌, ◌≡◌, Bool, true, false, ◌&&◌, not, Option, none, some, List, [], ◌∷◌,
  if◌then◌else◌, Bytes, replicate,
}
use arduino_yun_bridge.Protocol.{is_system_command, aead_nonce_size}
use arduino_yun_bridge.Security.{generate_nonce_with_counter}
use arduino_yun_bridge.Frame.{Payload, Wire, Result, ok, err, build_frame}
use arduino_yun_bridge.Link.{Link, is_synchronized}
use arduino_yun_bridge.Transport.Correlation.{Pending}

-- `cobsr.encode` and `cobsr.decode`; `none` is a `DecodeError`.
pub record Cobs : Type 0 where
  pub encode : Bytes → Bytes
  pub decode : Bytes → Option Bytes

-- The documented behaviour of the package.
pub record IsCobs (c : Cobs) : Type 0 where
  pub decode-encode : (b : Bytes) → c.decode (c.encode b) ≡ some b

-- The part of `RuntimeConfig` that the transport reads.
pub record Config : Type 0 where
  pub serial_baud : ℕ
  pub serial_safe_baud : ℕ
  pub serial_fallback_threshold : ℕ

-- A frame as `handle_mcu_frame` gets it.
pub record Handed (M : Type 0) : Type 0 where
  pub command_id : ℕ
  pub seq_id : ℕ
  pub payload : Payload M

-- `SerialTransport` and the fields of `RuntimeState` that it changes.
pub record Transport (M : Type 0) : Type 0 where
  -- `self.serial` is set and open
  pub is_open : Bool
  pub link : Link
  pub tx_sequence_id : ℕ
  pub current : Option (Pending M)
  pub negotiating : Bool
  -- the negotiation future has its result
  pub negotiated : Bool
  pub local_baud : ℕ
  pub consecutive_crc_errors : ℕ
  pub serial_decode_errors : ℕ
  pub written : List Bytes
  pub handed : List (Handed M)

-- `send_raw` returns True or False, or raises the `ValueError` of the nonce counter or of the frame.
pub data Sent : Type 0 where
  written failed raised : Sent

-- What the outside contributes to a write.
pub record Io : Type 0 where
  pub random : Bytes
  pub write_ok : Bool

-- `self.state.link_session_key if self.state.is_synchronized else None`
unfoldable pub session_key : Link → Option Bytes
session_key l = if is_synchronized l then l.link_session_key else none

-- The nonce of a frame and the counter behind it: zeros for a system frame or an unsynchronised link.
unfoldable pub next_nonce : Bytes → ℕ → Link → Option (Bytes × ℕ)
next_nonce random command_id l =
    if is_synchronized l && not (is_system_command command_id)
    then generate_nonce_with_counter random l.link_nonce_counter
    else some (replicate {A = ℕ} aead_nonce_size 0, l.link_nonce_counter)

module _ {M : Type 0} where
  -- The sequence id of a frame, and the transport that counted it.
  unfoldable pub take_sequence : Option ℕ → Transport M → Transport M × ℕ
  take_sequence none t =
      let seq_id = (t.tx_sequence_id + 1) % 2 ^ 16 in (record t { tx_sequence_id = seq_id }, seq_id)
  take_sequence (some seq_id) t = (t, seq_id)

  abbrev pub count_nonce : ℕ → Transport M → Transport M
  count_nonce counter t = record t { link = record t.link { link_nonce_counter = counter } }

module _ (w : Wire) (c : Cobs) where
  unfoldable pub write : Bool → Result Bytes → Transport w.Message → Transport w.Message × Sent
  write ok' (err x) t = (t, raised)
  write ok' (ok frame) t =
      if ok' then (record t { written = c.encode frame ∷ t.written }, written) else (t, failed)

  -- The frame is built from the link after the counter moved.
  unfoldable pub send_frame :
      Io
      → ℕ
      → ℕ
      → Payload w.Message
      → Option (Bytes × ℕ)
      → Transport w.Message
      → Transport w.Message × Sent
  send_frame io command_id seq_id payload none t = (t, raised)
  send_frame io command_id seq_id payload (some (nonce, counter)) t =
      let t' = count_nonce counter t in
      write io.write_ok (build_frame w command_id seq_id payload (some nonce) (session_key t'.link))
        t'

  abbrev send_next :
      Io → ℕ → Payload w.Message → Transport w.Message × ℕ → Transport w.Message × Sent
  send_next io command_id payload (t, seq_id) =
      send_frame io command_id seq_id payload (next_nonce io.random command_id t.link) t

  -- The wait for flow control goes on after its timeout, and changes nothing here.
  unfoldable pub send_raw :
      Io → ℕ → Payload w.Message → Option ℕ → Transport w.Message → Transport w.Message × Sent
  send_raw io command_id payload seq_id t =
      if t.is_open then send_next io command_id payload (take_sequence seq_id t) else (t, failed)
