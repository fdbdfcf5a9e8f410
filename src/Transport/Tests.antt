-- ===== src/Transport/Tests.antt =====
-- A session of two ends over the toy wire, with COBS as the identity.
use arduino_yun_bridge.Base.{
  ℕ, ◌≡◌, refl, true, false, Option, none, some, List, [], ◌∷◌, arith, Bytes, replicate,
}
use arduino_yun_bridge.Base.Ints.{to_bytes_le, to_bytes_be, from_bytes_le}
use arduino_yun_bridge.Protocol.{is_system_command}
use arduino_yun_bridge.Protocol.Command
use arduino_yun_bridge.Security.{generate_nonce_with_counter}
use arduino_yun_bridge.Frame.{
  encrypted_payload_with_tag, Payload, bytes, message, Envelope, ok, build_frame, parse_frame, seal,
  fill, with_crc, read_envelope, open_payload, present,
}
use arduino_yun_bridge.Frame.Crc.{crc32}
use arduino_yun_bridge.Frame.RoundTrip.{delivered}
use arduino_yun_bridge.Frame.Toy.{toy, toy-IsWire}
use arduino_yun_bridge.Link
use arduino_yun_bridge.Link.{Link, initial, is_synchronized}
use arduino_yun_bridge.Transport.{
  Cobs, IsCobs, Config, Transport, Io, written, session_key, next_nonce, write, send_frame,
  take_sequence, send_raw,
}
use arduino_yun_bridge.Transport.Receive.{is_excluded, read_packet, process_packet}
use arduino_yun_bridge.Transport.Send.{packet, other, handle_events}
use arduino_yun_bridge.Transport.Replay.{KeepsSession, send_raw-Advances, replayed_packet_dropped}
use arduino_yun_bridge.Transport.Delivery.{written_frame_delivered}

abbrev plain_cobs : Cobs
plain_cobs = record { encode = λ b. b; decode = some }

plain_cobs-IsCobs : IsCobs plain_cobs
plain_cobs-IsCobs = record { decode-encode = λ b. refl }

abbrev cfg : Config
cfg = record { serial_baud = 500000; serial_safe_baud = 115200; serial_fallback_threshold = 5 }

abbrev session : Link
session = record initial {
  phase = Link.Phase.synchronized;
  link_session_key = some (replicate {A = ℕ} 32 7);
}

abbrev end_ : Transport ℕ
end_ = record {
  is_open = true;
  link = session;
  tx_sequence_id = 65535;
  current = none;
  negotiating = false;
  negotiated = false;
  local_baud = 500000;
  consecutive_crc_errors = 4;
  serial_decode_errors = 0;
  written = [];
  handed = [];
}

abbrev io : Io
io = record { random = 9 ∷ 9 ∷ 9 ∷ 9 ∷ []; write_ok = true }

abbrev read_ack : Payload ℕ → Option ℕ
read_ack (bytes b) = none
read_ack (message m) = some m

abbrev baud_packet : ℕ → ℕ
baud_packet n = 1

abbrev hello : Payload ℕ
hello = bytes (1 ∷ 2 ∷ 3 ∷ [])

-- The service answers every frame with one of its own.
abbrev answers : Transport ℕ → Transport ℕ
answers t = (send_raw toy plain_cobs io Command.console_write hello none t).0

sent_end : Transport ℕ
sent_end = (send_raw toy plain_cobs io Command.console_write hello none end_).0

hello_sent : send_raw toy plain_cobs io Command.console_write hello none end_ ≡ (sent_end, written)
unfolding send_raw sent_end send_frame next_nonce is_synchronized take_sequence is_system_command
    generate_nonce_with_counter write build_frame fill session_key seal
hello_sent = refl

written_frame_delivered_example :
    (encoded : Bytes) × (sent_end.written ≡ encoded ∷ [])
    × ((r' : Transport ℕ) × (process_packet toy plain_cobs cfg read_ack baud_packet io answers
            encoded end_
          ≡ answers r')
        × (r'.handed
            ≡ record {
              command_id = Command.console_write;
              seq_id = (take_sequence none end_).1;
              payload = delivered toy (present session.link_session_key) hello;
            }
              ∷ [])
        × (r'.link.link_last_nonce_counter ≡ sent_end.link.link_nonce_counter))
unfolding is_synchronized is_system_command
written_frame_delivered_example =
    written_frame_delivered toy plain_cobs cfg read_ack baud_packet toy-IsWire plain_cobs-IsCobs io
      io answers Command.console_write hello none end_ end_ refl refl refl (omega arith) refl refl
      refl hello_sent

abbrev first_of : List Bytes → Bytes
first_of [] = []
first_of (b ∷ bs) = b

abbrev hello_packet : Bytes
hello_packet = first_of sent_end.written

hello_envelope : Envelope ℕ
unfolding generate_nonce_with_counter to_bytes_be
hello_envelope = record {
  version = 2;
  command_id = Command.console_write;
  sequence_id = 0;
  nonce = 9 ∷ 9 ∷ 9 ∷ 9 ∷ to_bytes_be 8 1;
  body = encrypted_payload_with_tag (1 ∷ 2 ∷ 3 ∷ []);
}

hello_read :
    read_packet toy plain_cobs cfg read_ack baud_packet hello_packet session
    ≡ ok (hello_envelope, hello)
unfolding send_raw sent_end send_frame next_nonce is_synchronized take_sequence is_system_command
    generate_nonce_with_counter write build_frame fill session_key seal hello_envelope read_packet
    parse_frame read_envelope open_payload with_crc crc32 to_bytes_le to_bytes_be from_bytes_le
hello_read = refl

answers_keep : KeepsSession answers
answers_keep t = send_raw-Advances toy plain_cobs io Command.console_write hello none t

replayed_packet_dropped_example :
    let later =
      handle_events toy plain_cobs cfg read_ack baud_packet
        (other io Command.console_write hello none ∷ packet io answers (1 ∷ []) ∷ [])
        (process_packet toy plain_cobs cfg read_ack baud_packet io answers hello_packet end_) in
    process_packet toy plain_cobs cfg read_ack baud_packet io answers hello_packet later ≡ later
unfolding is_synchronized hello_envelope is_excluded
replayed_packet_dropped_example =
    replayed_packet_dropped toy plain_cobs cfg read_ack baud_packet io io answers answers
      hello_packet (other io Command.console_write hello none ∷ packet io answers (1 ∷ []) ∷ [])
      end_ answers_keep (tt, (answers_keep, tt)) refl hello_read refl
