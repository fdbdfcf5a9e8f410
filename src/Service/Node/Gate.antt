-- ===== src/Service/Node/Gate.antt =====
-- What the service keeps while the link is not synchronised.
use arduino_yun_bridge.Base.{ℕ, ◌≡◌, refl, false}
use arduino_yun_bridge.Link.{is_synchronized}
use arduino_yun_bridge.Handshake.{Kdf, Config, Clock}
use arduino_yun_bridge.Service.Files.{FileSystem}
use arduino_yun_bridge.Service.Requests.{Codecs, Surroundings, Service}
use arduino_yun_bridge.Service.Frames
use arduino_yun_bridge.Service.Frames.{Handler, handle_mcu_frame}
use arduino_yun_bridge.Service.Frames.Gate.{
  IsEarly, status_early, ack_early, sync_early, reset_early, IsBlind, handle_mcu_frame-gated,
}
use arduino_yun_bridge.Service.Node.{
  Message, link_sync, console_write, mailbox_push, mailbox_processed, file_read_response,
  spi_transfer_response, datastore_get, file_read, file_remove, process_run_async, process_poll,
  process_kill, digital_read_response, analog_read_response, other_message, datastore_put,
  file_write, FrameParsers, Node, run, run_parsed, node_handlers,
}

module _ (fs : FileSystem) (c : Codecs) (kdf : Kdf) (cfg : Config) (clock : Clock)
    (ps : FrameParsers) (w : Surroundings) where
  -- The part that the handlers of requests share with those of frames.
  abbrev service_of : Node fs c → Service fs c
  service_of n = n.service

  parsed_keeps :
      (seq : ℕ) (m : Message) (n : Node fs c)
      → (run_parsed fs c kdf cfg clock ps w Handler.handle_link_sync_resp seq m n).0.service
        ≡ n.service
  unfolding run_parsed
  parsed_keeps seq (link_sync packet) n = refl
  parsed_keeps seq (console_write a) n = refl
  parsed_keeps seq (mailbox_push a) n = refl
  parsed_keeps seq (mailbox_processed a) n = refl
  parsed_keeps seq (file_read_response a) n = refl
  parsed_keeps seq (spi_transfer_response a) n = refl
  parsed_keeps seq (datastore_get a) n = refl
  parsed_keeps seq (file_read a) n = refl
  parsed_keeps seq (file_remove a) n = refl
  parsed_keeps seq (process_run_async a) n = refl
  parsed_keeps seq (process_poll a) n = refl
  parsed_keeps seq (process_kill a) n = refl
  parsed_keeps seq (digital_read_response a) n = refl
  parsed_keeps seq (analog_read_response a) n = refl
  parsed_keeps seq (other_message a) n = refl
  parsed_keeps seq (datastore_put a b) n = refl
  parsed_keeps seq (file_write a b) n = refl

  sync_keeps :
      (seq : ℕ) (p : Frames.Payload Message) (n : Node fs c)
      → (run fs c kdf cfg clock ps w Handler.handle_link_sync_resp seq p n).0.service ≡ n.service
  unfolding run
  sync_keeps seq (Frames.raw bytes) n = refl
  sync_keeps seq (Frames.parsed m) n = parsed_keeps seq m n

  early_keeps :
      (x : Handler) (seq : ℕ) (p : Frames.Payload Message) (n : Node fs c)
      → IsEarly x
      → (run fs c kdf cfg clock ps w x seq p n).0.service ≡ n.service
  unfolding run
  early_keeps x seq p n (status_early s) = refl
  early_keeps x seq p n ack_early = refl
  early_keeps x seq p n sync_early = sync_keeps seq p n
  early_keeps x seq p n reset_early = refl

  service-IsBlind : IsBlind (node_handlers fs c kdf cfg clock ps w) service_of
  unfolding node_handlers
  service-IsBlind = record { run-early = early_keeps; acknowledge-early = λ command_id seq n. refl }

  -- While the link is not synchronised, no frame of the MCU changes the console, the datastore, the
  -- mailbox, the pins, the processes or the files.
  pub node_gated :
      (command_id seq : ℕ) (p : Frames.Payload Message) (n : Node fs c)
      → is_synchronized n.manager.link ≡ false
      → (handle_mcu_frame (node_handlers fs c kdf cfg clock ps w) command_id seq p n).0.service
        ≡ n.service
  unfolding node_handlers
  node_gated command_id seq p n off =
      handle_mcu_frame-gated (node_handlers fs c kdf cfg clock ps w) service_of service-IsBlind
        command_id seq p n off
