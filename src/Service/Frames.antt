-- ===== src/Service/Frames.antt =====
-- `handle_mcu_frame` in mcubridge/mcubridge/services/runtime.py, with the registry of the handlers. The
-- handlers stand behind an interface, which the service's own fill.
pub mod Gate
use arduino_yun_bridge.Base.{
  ℕ, Bool, true, false, ◌||◌, not, Option, none, some, List, [], ◌∷◌, ◌==◌, if◌then◌else◌, Bytes,
  any,
}
use arduino_yun_bridge.Base.Assoc.{lookup, insert, nat_key}
use arduino_yun_bridge.Protocol.{response_to_request}
use arduino_yun_bridge.Protocol.Command
use arduino_yun_bridge.Protocol.Status.{Status}
use arduino_yun_bridge.Protocol.Status

-- The values of the registry: a method of the service or of the handshake, or `_handle_mcu_status` of a
-- status.
pub data Handler : Type 0 where
  handle_mcu_xon handle_mcu_xoff on_mcu_console_write : Handler
  on_mcu_datastore_put on_mcu_datastore_get : Handler
  on_mcu_mailbox_push on_mcu_mailbox_available on_mcu_mailbox_read on_mcu_mailbox_processed :
      Handler
  on_mcu_file_write on_mcu_file_read on_mcu_file_remove on_mcu_file_read_resp : Handler
  on_mcu_process_run on_mcu_process_poll on_mcu_process_kill : Handler
  on_mcu_spi_resp on_mcu_ack on_mcu_digital_read_resp on_mcu_analog_read_resp : Handler
  unsupported_digital unsupported_analog : Handler
  handle_capabilities_resp handle_link_sync_resp handle_link_reset_resp : Handler
  handle_mcu_status : Status → Handler

abbrev pub commands_registry : List (ℕ × Handler)
commands_registry =
    (Command.xon, handle_mcu_xon)
    ∷ (Command.xoff, handle_mcu_xoff)
    ∷ (Command.console_write, on_mcu_console_write)
    ∷ (Command.datastore_put, on_mcu_datastore_put)
    ∷ (Command.datastore_get, on_mcu_datastore_get)
    ∷ (Command.mailbox_push, on_mcu_mailbox_push)
    ∷ (Command.mailbox_available, on_mcu_mailbox_available)
    ∷ (Command.mailbox_read, on_mcu_mailbox_read)
    ∷ (Command.mailbox_processed, on_mcu_mailbox_processed)
    ∷ (Command.file_write, on_mcu_file_write)
    ∷ (Command.file_read, on_mcu_file_read)
    ∷ (Command.file_remove, on_mcu_file_remove)
    ∷ (Command.file_read_resp, on_mcu_file_read_resp)
    ∷ (Command.process_run_async, on_mcu_process_run)
    ∷ (Command.process_poll, on_mcu_process_poll)
    ∷ (Command.spi_transfer_resp, on_mcu_spi_resp)
    ∷ (Status.value Status.ack, on_mcu_ack)
    ∷ (Command.digital_read_resp, on_mcu_digital_read_resp)
    ∷ (Command.analog_read_resp, on_mcu_analog_read_resp)
    ∷ (Command.process_kill, on_mcu_process_kill)
    ∷ (Command.digital_read, unsupported_digital)
    ∷ (Command.analog_read, unsupported_analog)
    ∷ (Command.get_capabilities_resp, handle_capabilities_resp)
    ∷ (Command.link_sync_resp, handle_link_sync_resp)
    ∷ (Command.link_reset_resp, handle_link_reset_resp)
    ∷ []

-- `for s in Status: if s != Status.ACK`
abbrev add_statuses : List Status → List (ℕ × Handler) → List (ℕ × Handler)
add_statuses [] m = m
add_statuses (s ∷ ss) m = add_statuses ss (
    if Status.value s == Status.value Status.ack
    then m
    else insert (Status.value s) (handle_mcu_status s) m)

unfoldable pub mcu_registry : List (ℕ × Handler)
unfolding insert
mcu_registry = add_statuses Status.all commands_registry

-- `command_id in _STATUS_VALUES`
unfoldable pub is_status : ℕ → Bool
is_status command_id = any (λ s. Status.value s == command_id) Status.all

-- `command_id in _PRE_SYNC_ALLOWED_COMMANDS`
unfoldable pub is_pre_sync_allowed : ℕ → Bool
is_pre_sync_allowed command_id =
    (command_id == Command.link_sync_resp) || (command_id == Command.link_reset_resp)

-- A payload as it came, or parsed.
pub data Payload (M : Type 0) : Type 0 where
  raw : Bytes → Payload M
  parsed : M → Payload M

-- What a handler comes to; `blocked` while it waits for something that another task has to do.
pub data Result : Type 0 where
  returned_false returned raised blocked : Result

-- What `handle_mcu_frame` uses of the service: `S` is its state, `M` a protobuf message.
pub record McuHandlers (S M : Type 0) : Type 0 where
  pub is_synchronized : S → Bool
  -- `command_id in protocol.COMMAND_TO_PB`, and `ParseFromString` (`none` is a DecodeError)
  pub has_message : ℕ → Bool
  pub parse : ℕ → Bytes → Option M
  pub run : Handler → ℕ → Payload M → S → S × Result
  -- `serial.acknowledge` of the command and the sequence number
  pub acknowledge : ℕ → ℕ → S → S
  -- the counter of unknown commands, and the status that is sent
  pub reject_unknown : S → S

module _ {S M : Type 0} (h : McuHandlers S M) where
  abbrev pub acknowledge_unless_status : ℕ → ℕ → S × Result → S × Result
  acknowledge_unless_status command_id seq (s, returned_false) = (s, returned_false)
  acknowledge_unless_status command_id seq (s, raised) = (s, raised)
  acknowledge_unless_status command_id seq (s, blocked) = (s, blocked)
  acknowledge_unless_status command_id seq (s, returned) =
      if is_status command_id then (s, returned) else (h.acknowledge command_id seq s, returned)

  abbrev pub read_payload : ℕ → Payload M → Option (Payload M)
  read_payload command_id (parsed m) = some (parsed m)
  read_payload command_id (raw bytes) =
      if h.has_message command_id
      then elim (h.parse command_id bytes) [ none ↦ none | some m ↦ some (parsed m) ]
      else some (raw bytes)

  abbrev pub run_handler : Handler → ℕ → ℕ → Option (Payload M) → S → S × Result
  run_handler x command_id seq none s = (s, raised)
  run_handler x command_id seq (some p) s =
      acknowledge_unless_status command_id seq (h.run x seq p s)

  abbrev pub reject : Option ℕ → S → S × Result
  reject none s = (h.reject_unknown s, returned)
  reject (some request) s = (s, returned)

  abbrev pub handle_known : Option Handler → ℕ → ℕ → Payload M → S → S × Result
  handle_known (some x) command_id seq p s =
      run_handler x command_id seq (read_payload command_id p) s
  handle_known none command_id seq p s = reject (response_to_request command_id) s

  unfoldable pub handle_mcu_frame : ℕ → ℕ → Payload M → S → S × Result
  unfolding response_to_request is_status is_pre_sync_allowed lookup mcu_registry
  handle_mcu_frame command_id seq p s =
      if h.is_synchronized s || is_status command_id || is_pre_sync_allowed command_id
      then handle_known (lookup command_id mcu_registry) command_id seq p s
      else (s, returned)
