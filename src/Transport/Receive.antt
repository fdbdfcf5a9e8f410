-- ===== src/Transport/Receive.antt =====
-- The receiving side of transport/serial.py: `_process_packet`, the fallback to the safe baud rate and
-- its negotiation.
use arduino_yun_bridge.Base.{
  ℕ, ◌+◌, Bool, true, false, ◌||◌, ◌&&◌, not, Option, none, some, ◌∷◌, if◌then◌else◌, leb, ◌==◌,
  Bytes,
}
use arduino_yun_bridge.Protocol.{
  status_code_min, status_code_max, system_command_min, system_command_max,
}
use arduino_yun_bridge.Protocol.Command
use arduino_yun_bridge.Security.{validate_nonce_counter}
use arduino_yun_bridge.Frame.{Payload, Wire, Envelope, Result, ok, err, parse_frame, malformed}
use arduino_yun_bridge.Link.{Link, is_synchronized}
use arduino_yun_bridge.Transport.Correlation.{Pending, correlate}
use arduino_yun_bridge.Transport.{Cobs, Config, Transport, Sent, Io, session_key, send_raw}

-- `is_excluded` of `_process_packet`
unfoldable pub is_excluded : ℕ → Bool
is_excluded cmd_id =
    (leb status_code_min cmd_id && leb cmd_id status_code_max)
    || (leb system_command_min cmd_id && leb cmd_id system_command_max)

module _ {M : Type 0} where
  -- The anti-replay check: whether the frame goes on, and the counter of the last one taken.
  unfoldable pub check_replay : Envelope M → Link → Bool × ℕ
  check_replay e l =
      if is_synchronized l && not (is_excluded e.command_id)
      then validate_nonce_counter e.nonce l.link_last_nonce_counter
      else (true, l.link_last_nonce_counter)

  abbrev pub correlate_current :
      (Payload M → Option ℕ) → ℕ → Payload M → Option (Pending M) → Option (Pending M)
  correlate_current read_ack cmd_id payload none = none
  correlate_current read_ack cmd_id payload (some p) = some (correlate read_ack cmd_id payload p)

  abbrev pub given : (Payload M → Option ℕ) → Envelope M → Payload M → Transport M → Transport M
  given read_ack e payload t = record t {
    current = correlate_current read_ack e.command_id payload t.current;
    handed =
        record { command_id = e.command_id; seq_id = e.sequence_id; payload = payload } ∷ t.handed;
  }

  -- The counter of a nonce that was taken is remembered before the service gets the frame.
  abbrev pub remembered : Envelope M → Transport M → Transport M
  remembered e t = record t {
    link = record t.link { link_last_nonce_counter = (check_replay e t.link).1 };
  }

  -- `serve` is what `handle_mcu_frame` makes of this frame: it sends frames and changes the link.
  unfoldable pub take_frame :
      (Payload M → Option ℕ)
      → (Transport M → Transport M)
      → Envelope M
      → Payload M
      → Transport M
      → Transport M
  take_frame read_ack serve e payload t =
      if (check_replay e t.link).0 then serve (given read_ack e payload (remembered e t)) else t

module _ (w : Wire) (c : Cobs) (cfg : Config) (read_ack : Payload w.Message → Option ℕ)
    (baud_packet : ℕ → w.Message) where
  -- `_negotiate_baudrate` up to the wait for the answer; `baud_packet` is `pb.SetBaudratePacket`.
  unfoldable pub begin_negotiation : Io → ℕ → Transport w.Message → Transport w.Message × Sent
  begin_negotiation io target_baud t =
      send_raw w c io Command.set_baudrate (Payload.message (baud_packet target_baud)) none
        (record t { negotiating = true; negotiated = false })

  -- The end of `_negotiate_baudrate`, whether the answer came or not.
  abbrev pub end_negotiation : Transport w.Message → Transport w.Message
  end_negotiation t = record t { negotiating = false }

  -- `meanwhile` is what happens until the wait for the answer ends.
  abbrev fall_back :
      Io → (Transport w.Message → Transport w.Message) → Transport w.Message → Transport w.Message
  fall_back io meanwhile t =
      if cfg.serial_baud == cfg.serial_safe_baud
      then t
      else end_negotiation (meanwhile (begin_negotiation io cfg.serial_safe_baud t).0)

  unfoldable pub check_baudrate_fallback :
      Io → (Transport w.Message → Transport w.Message) → Transport w.Message → Transport w.Message
  unfolding begin_negotiation
  check_baudrate_fallback io meanwhile t =
      if leb cfg.serial_fallback_threshold (t.consecutive_crc_errors + 1)
      then fall_back io meanwhile (record t { consecutive_crc_errors = 0 })
      else record t { consecutive_crc_errors = t.consecutive_crc_errors + 1 }

  -- A frame that parses: the answer to a negotiation switches the local baud rate.
  unfoldable pub dispatch :
      (Transport w.Message → Transport w.Message)
      → Envelope w.Message
      → Payload w.Message
      → Transport w.Message
      → Transport w.Message
  dispatch serve e payload t =
      if t.negotiating && not t.negotiated && (e.command_id == Command.set_baudrate_resp)
      then record t { local_baud = cfg.serial_baud; negotiated = true }
      else take_frame read_ack serve e payload t

  abbrev decode_frame : Option Bytes → Link → Result (Envelope w.Message × Payload w.Message)
  decode_frame none l = err malformed
  decode_frame (some raw) l = parse_frame w raw (session_key l)

  -- `none` for a packet that is malformed, in either layer
  unfoldable pub read_packet : Bytes → Link → Result (Envelope w.Message × Payload w.Message)
  read_packet encoded l = decode_frame (c.decode encoded) l

  unfoldable pub on_frame :
      Io
      → (Transport w.Message → Transport w.Message)
      → Result (Envelope w.Message × Payload w.Message)
      → Transport w.Message
      → Transport w.Message
  on_frame io serve (err x) t =
      check_baudrate_fallback io serve
        (record t { serial_decode_errors = t.serial_decode_errors + 1 })
  on_frame io serve (ok (e, payload)) t = dispatch serve e payload t

  -- `serve` is what happens while the packet is handled: what the service makes of its frame, or, behind a
  -- packet that cannot be read, what the other tasks do while a negotiation waits.
  unfoldable pub process_packet :
      Io
      → (Transport w.Message → Transport w.Message)
      → Bytes
      → Transport w.Message
      → Transport w.Message
  unfolding read_packet on_frame
  process_packet io serve encoded t = on_frame io serve (read_packet encoded t.link) t
