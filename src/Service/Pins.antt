-- ===== src/Service/Pins.antt =====
-- Pins in mcubridge/mcubridge/services/runtime.py: `_parse_pin`, `_handle_pin` and `_on_pin_resp`. The
-- built-ins `bytes.decode` and `int` are parameters (`none` is a `ValueError`; a mode below 0 is one
-- too). Characters beyond ASCII count as no digits, and a limit below 0 is not modelled.
mod Queues
mod Tests
use arduino_yun_bridge.Base.{
  ℕ, ◌+◌, ◌*◌, ◌-◌, Bool, true, false, ◌&&◌, ◌||◌, Option, none, some, List, [], ◌∷◌, ◌++◌, leb,
  ltb, ◌==◌, if◌then◌else◌, Bytes, Text, codes, text_eq, length, is_empty,
}
use arduino_yun_bridge.Protocol.Command
use arduino_yun_bridge.Topics.{TopicRoute}

-- `BridgeRequest`
pub record Request : Type 0 where
  pub topic : Text
  pub payload : Bytes
  pub correlation_data : Option Bytes
  pub response_topic : Option Text

-- `PendingPinRequest`
pub record PinRequest : Type 0 where
  pub pin : ℕ
  pub reply_context : Request

-- What goes to the MCU, the last one first; what goes to the cloud, below, is kept the first one first.
pub data Packet : Type 0 where
  pin_mode : ℕ → ℕ → Packet
  pin_read : ℕ → ℕ → Packet
  -- the command, the pin and the value
  pin_write : ℕ → ℕ → ℕ → Packet

-- What goes to the cloud: the value of a pin (no pin for an answer that nobody asked for), or the
-- report that too many reads are pending, with the request that is answered.
pub data Report : Type 0 where
  pin_value : Text → Option ℕ → ℕ → Option Request → Report
  pending_pin_overflow : Text → ℕ → Request → Report

pub record Pins : Type 0 where
  pub pending_pin_request_limit : ℕ
  pub pending_digital_reads : List PinRequest
  pub pending_analog_reads : List PinRequest
  pub packets : List Packet
  pub reports : List Report
  pub raised : Bool

abbrev is_digit : ℕ → Bool
is_digit c = leb 48 c && leb c 57

abbrev all_digits : Text → Bool
all_digits [] = true
all_digits (c ∷ cs) = is_digit c && all_digits cs

-- `s.isdigit()`
abbrev pub isdigit : Text → Bool
isdigit s = if is_empty s then false else all_digits s

abbrev value_from : ℕ → Text → ℕ
value_from acc [] = acc
value_from acc (c ∷ cs) = value_from (acc * 10 + (c - 48)) cs

-- `int(s)` for digits
abbrev pub int_of : Text → ℕ
int_of s = value_from 0 s

abbrev decimal : Text → Option ℕ
decimal s = if isdigit s then some (int_of s) else none

abbrev is_analog : ℕ → Bool
is_analog c = (c == b'A') || (c == b'a')

-- `none` stands for -1.
unfoldable pub parse_pin : Text → Option ℕ
parse_pin [] = none
parse_pin (c ∷ cs) = if is_analog c && isdigit cs then some (int_of cs) else decimal (c ∷ cs)

abbrev is_digital : TopicRoute → Bool
is_digital r = text_eq r.topic (codes "d")

abbrev push : Packet → Pins → Pins
push p s = record s { packets = p ∷ s.packets }

abbrev report : Report → Pins → Pins
report r s = record s { reports = s.reports ++ (r ∷ []) }

-- The packet is sent whatever `send` returns; the result is not looked at.
unfoldable pub read_pin : TopicRoute → Request → ℕ → Pins → Pins
read_pin r request pin s =
    if is_digital r
    then (if ltb (length s.pending_digital_reads) s.pending_pin_request_limit
        then push (pin_read Command.digital_read pin) (record s {
          pending_digital_reads =
              s.pending_digital_reads ++ (record { pin = pin; reply_context = request } ∷ []);
        })
        else report (pending_pin_overflow r.topic pin request) s)
    else (if ltb (length s.pending_analog_reads) s.pending_pin_request_limit
        then push (pin_read Command.analog_read pin) (record s {
          pending_analog_reads =
              s.pending_analog_reads ++ (record { pin = pin; reply_context = request } ∷ []);
        })
        else report (pending_pin_overflow r.topic pin request) s)

abbrev write_command : TopicRoute → ℕ
write_command r = if is_digital r then Command.digital_write else Command.analog_write

abbrev set_mode : ℕ → Option ℕ → Pins → Pins
set_mode pin none s = record s { raised = true }
set_mode pin (some mode) s = push (pin_mode pin mode) s

-- The two segments that name an action, or else a write.
unfoldable pub pin_request : (Text → Option ℕ) → TopicRoute → Request → ℕ → Text → Pins → Pins
unfolding read_pin
pin_request parse_int r request pin text s = elim r.segments [
  | [] ↦ s
  | first ∷ [] ↦ push (pin_write (write_command r) pin (if isdigit text then int_of text else 0)) s
  | first ∷ second ∷ [] ↦
      if text_eq second (codes "mode")
      then set_mode pin (parse_int text) s
      else if text_eq second (codes "read")
      then read_pin r request pin s
      else s
  | first ∷ second ∷ third ∷ rest ↦
      push (pin_write (write_command r) pin (if isdigit text then int_of text else 0)) s
]

module _ (decode : Bytes → Option Text) (parse_int : Text → Option ℕ) where
  abbrev pub with_text : TopicRoute → Request → ℕ → Option Text → Pins → Pins
  with_text r request pin none s = record s { raised = true }
  with_text r request pin (some text) s = pin_request parse_int r request pin text s

  abbrev pub with_pin : TopicRoute → Request → Option ℕ → Pins → Pins
  with_pin r request none s = s
  with_pin r request (some pin) s = with_text r request pin (decode request.payload) s

  -- Without a segment, the subscript raises.
  unfoldable pub handle_pin : TopicRoute → Request → Pins → Pins
  unfolding pin_request
  handle_pin r request s = elim r.segments [
    | [] ↦ record s { raised = true }
    | first ∷ rest ↦ with_pin r request (parse_pin first) s
  ]

abbrev pub pin_of : Option PinRequest → Option ℕ
pin_of none = none
pin_of (some r) = some r.pin

abbrev pub context_of : Option PinRequest → Option Request
context_of none = none
context_of (some r) = some r.reply_context

abbrev pub first_request : List PinRequest → Option PinRequest
first_request [] = none
first_request (r ∷ rs) = some r

abbrev pub other_requests : List PinRequest → List PinRequest
other_requests [] = []
other_requests (r ∷ rs) = rs

abbrev answer : Text → Option PinRequest → ℕ → Pins → Pins
answer topic r value s = report (pin_value topic (pin_of r) value (context_of r)) s

-- `_on_mcu_digital_read_resp` and `_on_mcu_analog_read_resp`
unfoldable pub on_digital_read_resp : ℕ → Pins → Pins
on_digital_read_resp value s =
    answer (codes "d") (first_request s.pending_digital_reads) value
      (record s { pending_digital_reads = other_requests s.pending_digital_reads })

unfoldable pub on_analog_read_resp : ℕ → Pins → Pins
on_analog_read_resp value s =
    answer (codes "a") (first_request s.pending_analog_reads) value
      (record s { pending_analog_reads = other_requests s.pending_analog_reads })
