-- ===== src/Service/Node/Tests.antt =====
-- A node that waits for the answer to its challenge, a console frame that comes too early, and the
-- answer.
use arduino_yun_bridge.Base.{
  codes, arith, ℕ, false, ◌≡◌, refl, true, none, some, [], ◌∷◌, ◌++◌, Bytes, ◌==◌, if◌then◌else◌,
}
use arduino_yun_bridge.Base.Assoc.{lookup}
use arduino_yun_bridge.Protocol.Command
use arduino_yun_bridge.Link.{initial, is_synchronized, mark_synchronized}
use arduino_yun_bridge.Handshake.{Kdf, Config, Clock, LinkSync, Manager, syncing, set_fsm_state}
use arduino_yun_bridge.Handshake.Response.{
  handle_link_sync_resp, is_throttled, check_decoded, check_packet, is_forged, open_window,
  calculate_handshake_tag, establish,
}
use arduino_yun_bridge.Service.Files.Toy.{toy}
use arduino_yun_bridge.Service.Frames.{
  raw, handle_mcu_frame, read_payload, mcu_registry, is_status, is_pre_sync_allowed,
}
use arduino_yun_bridge.Service.Node.{
  link_sync, console_write, FrameParsers, Node, node_handlers, run, run_parsed,
}
use arduino_yun_bridge.Service.Node.Gate.{node_gated}
use arduino_yun_bridge.Service.Node.Genuine.{IsAnswer, frame_synchronizes}
use arduino_yun_bridge.Service.Node.Lifecycle.{
  receive, Arrival, receive_all, on_serial_disconnected, frames_after_disconnect,
}
use arduino_yun_bridge.Service.Node.Sessions.{IsApart, sessions_leave-IsApart}
use arduino_yun_bridge.Transport
use arduino_yun_bridge.Transport.Session
use arduino_yun_bridge.Transport.Session.{Course, running, greeted, greeting_fatal}
use arduino_yun_bridge.Service.Toy.{codecs, surroundings, at_rest, request}

abbrev kdf : Kdf
kdf = record { hkdf = λ secret salt info. secret ++ salt; hmac = λ key message. message ++ key }

abbrev cfg : Config
cfg = record {
  serial_shared_secret = 7 ∷ 8 ∷ 9 ∷ [];
  serial_handshake_min_interval = 0;
  serial_handshake_fatal_failures = 3;
}

abbrev clock : Clock
clock = record { monotonic = 5000; unix = 100 }

abbrev challenge : Bytes
challenge = 1 ∷ 2 ∷ 3 ∷ 4 ∷ 5 ∷ 6 ∷ 7 ∷ 8 ∷ 9 ∷ 10 ∷ 11 ∷ 12 ∷ 13 ∷ 14 ∷ 15 ∷ 16 ∷ []

abbrev right : LinkSync
right = record { nonce = challenge; tag = challenge }

abbrev waiting : Manager
waiting = record {
  fsm_state = syncing;
  link = record initial {
    link_handshake_nonce = some challenge;
    link_expected_tag = some challenge;
    handshake_attempts = 1;
  };
  effects = [];
}

abbrev parsers : FrameParsers
parsers = record {
  has_message = λ command_id. true;
  parse = λ command_id bytes.
      if command_id == Command.link_sync_resp
      then some (link_sync right)
      else some (console_write bytes);
}

abbrev node : Node toy codecs
node = record {
  service = at_rest none;
  manager = waiting;
  capabilities_future = none;
  mcu_packets = [];
  mcu_reports = [];
  acknowledged = [];
  unknown_command_count = 0;
}

node_gated_example :
    (handle_mcu_frame
      (node_handlers toy codecs kdf cfg clock parsers surroundings)
      Command.xon
      3
      (raw [])
      node).0.service
    ≡ at_rest none
unfolding is_synchronized
node_gated_example =
    node_gated toy codecs kdf cfg clock parsers surroundings Command.xon 3 (raw []) node refl

frame_synchronizes_example :
    IsAnswer toy codecs kdf cfg clock parsers surroundings 4
      (read_payload
        (node_handlers toy codecs kdf cfg clock parsers surroundings)
        Command.link_sync_resp
        (raw []))
      node
unfolding is_synchronized handle_mcu_frame node_handlers run run_parsed lookup mcu_registry
    handle_link_sync_resp is_throttled check_decoded check_packet is_forged open_window
    calculate_handshake_tag establish mark_synchronized set_fsm_state is_status is_pre_sync_allowed
frame_synchronizes_example =
    frame_synchronizes toy codecs kdf cfg clock parsers surroundings Command.link_sync_resp 4
      (raw []) node refl refl

abbrev answer : Arrival
answer = record {
  command_id = Command.link_sync_resp;
  sequence_id = 3;
  payload = raw [];
  clock = clock;
  surroundings = surroundings;
}

frames_after_disconnect_example :
    ((receive_all toy codecs kdf cfg parsers
        (answer ∷ [])
        (on_serial_disconnected toy codecs node)).service
      ≡ (on_serial_disconnected toy codecs node).service)
    × (is_synchronized
          (receive_all toy codecs kdf cfg parsers
            (answer ∷ [])
            (on_serial_disconnected toy codecs node)).manager.link
        ≡ false)
frames_after_disconnect_example =
    frames_after_disconnect toy codecs kdf cfg parsers (answer ∷ []) node

abbrev line : Transport.Config
line = record { serial_baud = 115200; serial_safe_baud = 115200; serial_fallback_threshold = 5 }

-- A session that ends with the read task, and one whose handshake is fatal.
abbrev one_session : Course
one_session = record {
  number = 1;
  opened = true;
  negotiated = true;
  greeting = greeted;
  stopped = false;
  reader = running;
}

abbrev last_session : Course
last_session = record one_session { number = 2; greeting = greeting_fatal }

-- Between the sessions, a digital read is queued.
abbrev queue_read : ℕ → Node toy codecs → Node toy codecs
queue_read number n = record n {
  service = record n.service {
    pins = record n.service.pins {
      pending_digital_reads =
          record { pin = 13; reply_context = request (codes "br/d/13/read") [] }
          ∷ n.service.pins.pending_digital_reads;
    };
  };
}

abbrev fresh : Node toy codecs
fresh = record node { manager = record waiting { link = initial } }

sessions_leave-IsApart_example : IsApart toy codecs (
    Session.run
      (λ number n. receive toy codecs kdf cfg parsers answer n)
      (on_serial_disconnected toy codecs)
      queue_read
      line
      (one_session ∷ last_session ∷ [])
      fresh)
unfolding is_synchronized
sessions_leave-IsApart_example =
    sessions_leave-IsApart toy codecs (λ number n. receive toy codecs kdf cfg parsers answer n)
      queue_read line (one_session ∷ last_session ∷ []) fresh
      (λ number m apart. record { off = apart.off; no_challenge = apart.no_challenge })
      ((λ e. ground (arith, e)), ((λ e. ground (arith, e)), tt))
      (record { off = refl; no_challenge = refl })
