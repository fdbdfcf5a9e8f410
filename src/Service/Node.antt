-- ===== src/Service/Node.antt =====
-- The MCU's frames in mcubridge/mcubridge/services/runtime.py: the handlers of the registry over the whole
-- service, filled into the interface of Service/Frames.antt. The parsers of the payloads are arguments, and so
-- is what each frame meets.
mod Gate
mod Genuine
mod Lifecycle
mod Sessions
mod Tests
use arduino_yun_bridge.Base.{
  ℕ, zero, suc, Bool, true, false, ◌+◌, ◌&&◌, not, Option, none, some, List, [], ◌∷◌, ◌++◌,
  if◌then◌else◌, Bytes, Text, is_empty,
}
use arduino_yun_bridge.Protocol.Command
use arduino_yun_bridge.Protocol.Status.{Status, ok, error, not_implemented}
use arduino_yun_bridge.Protocol.Status
use arduino_yun_bridge.Link.{is_synchronized}
use arduino_yun_bridge.Handshake.{Kdf, Config, Manager, LinkSync, Clock}
use arduino_yun_bridge.Handshake.Response
use arduino_yun_bridge.Console
use arduino_yun_bridge.Datastore
use arduino_yun_bridge.Processes.{
  Table, Started, process_id, value_error, waits, PollResponse, run_process, poll_process,
  kill_process,
}
use arduino_yun_bridge.Service.Pins
use arduino_yun_bridge.Service.Shell.{System}
use arduino_yun_bridge.Service.Files
use arduino_yun_bridge.Service.Files.{FileSystem, Files}
use arduino_yun_bridge.Service.Requests.{Codecs, Surroundings, Service}
use arduino_yun_bridge.Service.Frames

-- The parsed payloads. That of MAILBOX_PROCESSED is kept as it is printed.
pub data Message : Type 0 where
  console_write mailbox_push mailbox_processed file_read_response spi_transfer_response :
      Bytes → Message
  datastore_put file_write : Text → Bytes → Message
  datastore_get file_read file_remove process_run_async : Text → Message
  process_poll process_kill : ℕ → Message
  digital_read_response analog_read_response : ℕ → Message
  link_sync : LinkSync → Message
  other_message : Bytes → Message

-- What goes to the MCU.
pub data McuPacket : Type 0 where
  status_packet : Status → McuPacket
  mailbox_available_resp process_run_async_resp : ℕ → McuPacket
  process_poll_resp : PollResponse → McuPacket

-- What goes to the cloud.
pub data McuReport : Type 0 where
  console_out processed spi_data : Bytes → McuReport
  status_report : Status → McuReport

-- `COMMAND_TO_PB` and `ParseFromString`.
pub record FrameParsers : Type 0 where
  pub has_message : ℕ → Bool
  pub parse : ℕ → Bytes → Option Message

module _ (fs : FileSystem) (c : Codecs) where
  pub record Node : Type 0 where
    pub service : Service fs c
    pub manager : Manager
    -- none without a future, and in it what the future holds
    pub capabilities_future : Option (Option (Frames.Payload Message))
    pub mcu_packets : List McuPacket
    pub mcu_reports : List McuReport
    pub acknowledged : List (ℕ × ℕ)
    pub unknown_command_count : ℕ

  abbrev send : McuPacket → Node → Node
  send p n = record n { mcu_packets = n.mcu_packets ++ (p ∷ []) }

  abbrev publish : McuReport → Node → Node
  publish r n = record n { mcu_reports = n.mcu_reports ++ (r ∷ []) }

  -- The truth value of a result is what `is not False` looks at.
  abbrev result : Bool → Frames.Result
  result done = if done then Frames.returned else Frames.returned_false

  abbrev unless_raised : Bool → Frames.Result → Frames.Result
  unless_raised failed r = if failed then Frames.raised else r

  abbrev with_console : Node → Console.Console → Node
  with_console n k = record n { service = record n.service { console = k } }

  abbrev with_pins : Node → Pins.Pins → Node
  with_pins n k = record n { service = record n.service { pins = k } }

  abbrev with_table : Node → Table → Node
  with_table n t = record n {
    service = record n.service { shell = record n.service.shell { table = t } };
  }

  -- An exception of an earlier handler is over.
  abbrev exchange : Node → Datastore.Exchange
  exchange n = record n.service.exchange { raised = false }

  abbrev files : Node → Files fs
  files n = record n.service.files { raised = false }

  abbrev on_exchange : Frames.Result → Node → Datastore.Exchange → Node × Frames.Result
  on_exchange r n e =
      (record n { service = record n.service { exchange = e } }, unless_raised e.raised r)

  abbrev on_files : Frames.Result → Node → Files fs → Node × Frames.Result
  on_files r n f = (record n { service = record n.service { files = f } }, unless_raised f.raised r)

  abbrev on_read_resp : Node → Files fs × Bool → Node × Frames.Result
  on_read_resp n (f, done) = (record n { service = record n.service { files = f } }, result done)

  abbrev exec_failed : Node → Node × Frames.Result
  exec_failed n = (send (status_packet error) n, Frames.returned_false)

  abbrev on_started : Bool → Node → Table × Started → Node × Frames.Result
  on_started sent n (t, process_id zero) = exec_failed (with_table n t)
  on_started sent n (t, process_id (suc pid)) =
      (send (process_run_async_resp (suc pid)) (with_table n t), result sent)
  on_started sent n (t, value_error) = (with_table n t, Frames.raised)
  on_started sent n (t, waits) = (with_table n t, Frames.blocked)

  abbrev on_polled : Bool → Node → Table × PollResponse → Node × Frames.Result
  on_polled sent n (t, batch) = (send (process_poll_resp batch) (with_table n t), result sent)

  abbrev on_sync : Node → Manager × Bool → Node × Frames.Result
  on_sync n (m, done) = (record n { manager = m }, result done)

  abbrev set_capabilities :
      Frames.Payload Message
      → Option (Option (Frames.Payload Message))
      → Option (Option (Frames.Payload Message))
  set_capabilities p none = none
  set_capabilities p (some none) = some (some p)
  set_capabilities p (some (some q)) = some (some q)

  -- The packet of the length of the mailbox.
  abbrev available : Node → Node
  available n =
      send (mailbox_available_resp (Datastore.on_mcu_mailbox_available n.service.exchange)) n

  module _ (kdf : Kdf) (cfg : Config) (clock : Clock) (ps : FrameParsers) (w : Surroundings) where
    abbrev run_command : Text → Node → Node × Frames.Result
    run_command cmd n =
        if not (is_empty cmd) && c.shell_parsers.allowed cmd
        then on_started w.sent n (run_process true w.system.spawn n.service.shell.table)
        else exec_failed n

    abbrev console_out_unless_empty : Bytes → Node → Node
    console_out_unless_empty [] n = n
    console_out_unless_empty (b ∷ bs) n = publish (console_out (b ∷ bs)) n

    -- The handlers that read their payload; another payload than theirs raises.
    unfoldable pub run_parsed : Frames.Handler → ℕ → Message → Node → Node × Frames.Result
    run_parsed Frames.on_mcu_console_write seq (console_write bytes) n =
        (console_out_unless_empty bytes n, Frames.returned)
    run_parsed Frames.on_mcu_datastore_put seq (datastore_put key value) n =
        on_exchange Frames.returned n
          (Datastore.on_mcu_datastore_put w.database key value (exchange n))
    run_parsed Frames.on_mcu_datastore_get seq (datastore_get key) n =
        on_exchange (result w.sent) n (Datastore.on_mcu_datastore_get w.database key (exchange n))
    run_parsed Frames.on_mcu_mailbox_push seq (mailbox_push bytes) n =
        on_exchange Frames.returned n (Datastore.on_mcu_mailbox_push w.database bytes (exchange n))
    run_parsed Frames.on_mcu_mailbox_processed seq (mailbox_processed printed) n =
        (publish (processed printed) n, Frames.returned)
    run_parsed Frames.on_mcu_file_write seq (file_write path bytes) n =
        on_files (result w.sent) n (Files.on_mcu_file_write fs path bytes (files n))
    run_parsed Frames.on_mcu_file_read seq (file_read path) n =
        on_files Frames.returned n (Files.on_mcu_file_read fs path (files n))
    run_parsed Frames.on_mcu_file_remove seq (file_remove path) n =
        on_files (result w.sent) n (Files.on_mcu_file_remove fs path (files n))
    run_parsed Frames.on_mcu_file_read_resp seq (file_read_response bytes) n =
        on_read_resp n (Files.on_mcu_file_read_resp fs bytes n.service.files)
    run_parsed Frames.on_mcu_process_run seq (process_run_async cmd) n = run_command cmd n
    run_parsed Frames.on_mcu_process_poll seq (process_poll pid) n =
        on_polled w.sent n
          (poll_process pid w.system.stdout w.system.stderr w.system.finished n.service.shell.table)
    run_parsed Frames.on_mcu_process_kill seq (process_kill pid) n = (
      with_table n (kill_process w.system.termination pid n.service.shell.table),
      Frames.returned,
    )
    run_parsed Frames.on_mcu_spi_resp seq (spi_transfer_response bytes) n =
        (publish (spi_data bytes) n, Frames.returned)
    run_parsed Frames.on_mcu_digital_read_resp seq (digital_read_response value) n =
        (with_pins n (Pins.on_digital_read_resp value n.service.pins), Frames.returned)
    run_parsed Frames.on_mcu_analog_read_resp seq (analog_read_response value) n =
        (with_pins n (Pins.on_analog_read_resp value n.service.pins), Frames.returned)
    run_parsed Frames.handle_link_sync_resp seq (link_sync packet) n =
        on_sync n (Response.handle_link_sync_resp kdf cfg clock seq (some packet) n.manager)
    run_parsed x seq m n = (n, Frames.raised)

    abbrev run_payload : Frames.Handler → ℕ → Frames.Payload Message → Node → Node × Frames.Result
    run_payload x seq (Frames.parsed m) n = run_parsed x seq m n
    run_payload x seq (Frames.raw bytes) n = (n, Frames.raised)

    unfoldable pub run : Frames.Handler → ℕ → Frames.Payload Message → Node → Node × Frames.Result
    unfolding run_parsed
    run Frames.handle_mcu_xon seq p n =
        (with_console n (Console.handle_mcu_xon n.service.console), Frames.returned)
    run Frames.handle_mcu_xoff seq p n =
        (with_console n (Console.handle_mcu_xoff n.service.console), Frames.returned)
    run Frames.on_mcu_mailbox_available seq p n = (available n, result w.sent)
    run Frames.on_mcu_mailbox_read seq p n =
        on_exchange (result w.sent) n (Datastore.on_mcu_mailbox_read w.database (exchange n))
    run Frames.on_mcu_ack seq p n = (n, Frames.returned)
    run Frames.unsupported_digital seq p n = (send (status_packet not_implemented) n, result w.sent)
    run Frames.unsupported_analog seq p n = (send (status_packet not_implemented) n, result w.sent)
    run Frames.handle_capabilities_resp seq p n = (
      record n { capabilities_future = set_capabilities p n.capabilities_future },
      Frames.returned,
    )
    run Frames.handle_link_reset_resp seq p n = (n, Frames.returned)
    run (Frames.handle_mcu_status status) seq p n =
        (publish (status_report status) n, Frames.returned)
    run x seq p n = run_payload x seq p n

    unfoldable pub node_handlers : Frames.McuHandlers Node Message
    unfolding run is_synchronized
    node_handlers = record {
      is_synchronized = λ n. is_synchronized n.manager.link;
      has_message = ps.has_message;
      parse = ps.parse;
      run = run;
      acknowledge = λ command_id seq n. record n {
        acknowledged = n.acknowledged ++ ((command_id, seq) ∷ []);
      };
      reject_unknown = λ n.
          send (status_packet not_implemented)
            (record n { unknown_command_count = n.unknown_command_count + 1 });
    }
