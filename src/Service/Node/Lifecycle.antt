-- ===== src/Service/Node/Lifecycle.antt =====
-- `on_serial_connected` and `on_serial_disconnected` of mcubridge/mcubridge/services/runtime.py, over the whole
-- node, and the frames that come in between.
use arduino_yun_bridge.Base.{
  arith, Option, inl, inr, Bool-cases, ◌∙◌, if◌then◌else◌, ◌≡◌, List, Bool, ℕ, refl, none, some, [],
  ◌∷◌, false, true,
}
use arduino_yun_bridge.Link.{is_synchronized, mark_transport_connected, mark_transport_disconnected}
use arduino_yun_bridge.Handshake.{LinkSync, Kdf, Config, Clock, Manager}
use arduino_yun_bridge.Handshake.Sync.{Course}
use arduino_yun_bridge.Handshake.Retry
use arduino_yun_bridge.Handshake.Retry.{Retrying}
use arduino_yun_bridge.Handshake.Response.{handle_link_sync_resp, clear_handshake_expectations}
use arduino_yun_bridge.Handshake.Failure.{handle_handshake_failure}
use arduino_yun_bridge.Console.{flush_console_queue}
use arduino_yun_bridge.Service.Board.{request_mcu_version, Board}
use arduino_yun_bridge.Service.Files.{FileSystem}
use arduino_yun_bridge.Service.Requests.{Codecs, Surroundings}
use arduino_yun_bridge.Service.Frames
use arduino_yun_bridge.Service.Frames.{Handler, Payload, handle_mcu_frame}
use arduino_yun_bridge.Service.Frames.Gate.{
  IsEarly, status_early, ack_early, sync_early, reset_early, handle_mcu_frame-keeps,
}
use arduino_yun_bridge.Service.Node.{
  link_sync, Message, Node, FrameParsers, node_handlers, run, run_parsed,
}
use arduino_yun_bridge.Service.Node.Gate.{node_gated}
use arduino_yun_bridge.Service.Node.Genuine.{frame_synchronizes}

-- A frame of the MCU, and what its handling meets.
pub record Arrival : Type 0 where
  pub command_id : ℕ
  pub sequence_id : ℕ
  pub payload : Payload Message
  pub clock : Clock
  pub surroundings : Surroundings

module _ (fs : FileSystem) (c : Codecs) where
  abbrev with_manager : Manager → Node fs c → Node fs c
  with_manager m n = record n { manager = m }

  abbrev with_board : Node fs c → Board × Bool → Node fs c
  with_board n (b, done) = record n { service = record n.service { board = b } }

  -- The version, then the console.
  abbrev greet : Surroundings → Node fs c → Node fs c
  greet w n =
      let asked =
        with_board n (
          request_mcu_version c.parsers w.answer none
            (record n.service.board { raised = false })) in
      if asked.service.board.raised then asked else record asked {
        service = record asked.service { console = flush_console_queue asked.service.console };
      }

  -- An exception of the version's parser leaves the handler.
  unfoldable pub on_serial_connected :
      Retrying → Kdf → Config → (ℕ → Course) → Surroundings → Node fs c → Node fs c
  unfolding mark_transport_connected Retry.synchronize is_synchronized
  on_serial_connected t kdf cfg courses w n =
      let opened = record n.manager { link = mark_transport_connected n.manager.link } in
      let synced = with_manager (Retry.synchronize t kdf cfg courses opened).0 n in
      if is_synchronized synced.manager.link then greet w synced else synced

  -- What waits on the link is dropped; the processes, the console queue and the session key stay. The
  -- reset of the transport that follows is in Transport.
  unfoldable pub on_serial_disconnected : Node fs c → Node fs c
  unfolding mark_transport_disconnected clear_handshake_expectations
  on_serial_disconnected n = record n {
    manager = clear_handshake_expectations (record n.manager {
      link = record (mark_transport_disconnected n.manager.link) {
        mcu_is_paused = false;
        serial_tx_allowed = true;
      };
    });
    service = record n.service {
      pins = record n.service.pins { pending_digital_reads = []; pending_analog_reads = [] };
      console = record n.service.console { mcu_is_paused = false; serial_tx_allowed = true };
    };
  }

  module _ (kdf : Kdf) (cfg : Config) (ps : FrameParsers) where
    unfoldable pub receive : Arrival → Node fs c → Node fs c
    unfolding node_handlers handle_mcu_frame
    receive a n =
        (handle_mcu_frame (node_handlers fs c kdf cfg a.clock ps a.surroundings) a.command_id
          a.sequence_id a.payload n).0

    unfoldable pub receive_all : List Arrival → Node fs c → Node fs c
    unfolding receive
    receive_all [] n = n
    receive_all (a ∷ arrivals) n = receive_all arrivals (receive a n)

    -- No challenge is pending.
    abbrev pub IsIdle : Node fs c → Type 0
    IsIdle n = n.manager.link.link_handshake_nonce ≡ none

    answer-IsIdle :
        (clock : Clock) (seq : ℕ) (packet : Option LinkSync) (m : Manager)
        → m.link.link_handshake_nonce ≡ none
        → (handle_link_sync_resp kdf cfg clock seq packet m).0.link.link_handshake_nonce ≡ none
    answer-IsIdle clock seq packet m idle =
        unfold handle_link_sync_resp handle_handshake_failure in ground (arith, idle)

    parsed-IsIdle :
        (clock : Clock) (w : Surroundings) (seq : ℕ) (m : Message) (n : Node fs c)
        → IsIdle n
        → IsIdle (run_parsed fs c kdf cfg clock ps w Handler.handle_link_sync_resp seq m n).0
    unfolding run_parsed
    parsed-IsIdle clock w seq (link_sync packet) n idle =
        answer-IsIdle clock seq (some packet) n.manager idle
    parsed-IsIdle clock w seq m n idle = ground (arith, idle)

    early-IsIdle :
        (clock : Clock) (w : Surroundings) (x : Handler) (seq : ℕ) (p : Payload Message)
        (n : Node fs c)
        → IsEarly x
        → IsIdle n
        → IsIdle (run fs c kdf cfg clock ps w x seq p n).0
    unfolding run
    early-IsIdle clock w x seq p n (status_early s) idle = idle
    early-IsIdle clock w x seq p n ack_early idle = idle
    early-IsIdle clock w x seq p n reset_early idle = idle
    early-IsIdle clock w x seq (Frames.raw bytes) n sync_early idle = idle
    early-IsIdle clock w x seq (Frames.parsed m) n sync_early idle =
        parsed-IsIdle clock w seq m n idle

    receive-IsIdle :
        (a : Arrival) (n : Node fs c)
        → is_synchronized n.manager.link ≡ false
        → IsIdle n
        → IsIdle (receive a n)
    unfolding receive node_handlers
    receive-IsIdle a n off idle =
        handle_mcu_frame-keeps (node_handlers fs c kdf cfg a.clock ps a.surroundings) IsIdle
          (record {
            run-early = λ x seq p s i k. early-IsIdle a.clock a.surroundings x seq p s i k;
            acknowledge-early = λ command_id seq s k. k;
          })
          a.command_id a.sequence_id a.payload n off idle

    -- Without a pending challenge nothing answers it.
    receive-off :
        (a : Arrival) (n : Node fs c)
        → is_synchronized n.manager.link ≡ false
        → IsIdle n
        → is_synchronized (receive a n).manager.link ≡ false
    unfolding receive
    receive-off a n off idle = elim (Bool-cases (is_synchronized (receive a n).manager.link)) [
      | inl on ↦
          let (packet, e, g) =
            frame_synchronizes fs c kdf cfg a.clock ps a.surroundings a.command_id a.sequence_id
              a.payload n off on in
          absurd (ground (arith, g.pending, idle))
      | inr still ↦ still
    ]

    frames_keep :
        (arrivals : List Arrival) (n : Node fs c)
        → is_synchronized n.manager.link ≡ false
        → IsIdle n
        → ((receive_all arrivals n).service ≡ n.service)
          × (is_synchronized (receive_all arrivals n).manager.link ≡ false)
    unfolding receive_all
    frames_keep [] n off idle = (refl, off)
    frames_keep (a ∷ arrivals) n off idle =
        let (same, still) =
          frames_keep arrivals (receive a n) (receive-off a n off idle)
            (receive-IsIdle a n off idle) in
        (same ∙ kept a n off, still)
      where
        kept :
            (a : Arrival) (n : Node fs c)
            → is_synchronized n.manager.link ≡ false
            → (receive a n).service ≡ n.service
        kept a n off =
            node_gated fs c kdf cfg a.clock ps a.surroundings a.command_id a.sequence_id a.payload n
              off

    -- After the line was lost, and until a handshake is begun anew, whatever frames still come, the link
    -- stays unsynchronised, and the console, the datastore, the mailbox, the pins, the processes and the
    -- files stay as they were: answers to the challenge of before the loss are taken no more.
    pub frames_after_disconnect :
        (arrivals : List Arrival) (n : Node fs c)
        → ((receive_all arrivals (on_serial_disconnected n)).service
            ≡ (on_serial_disconnected n).service)
          × (is_synchronized (receive_all arrivals (on_serial_disconnected n)).manager.link ≡ false)
    frames_after_disconnect arrivals n =
        let d = on_serial_disconnected n in
        frames_keep arrivals d (unfold on_serial_disconnected is_synchronized in refl)
          (unfold on_serial_disconnected in refl)
