-- ===== src/Transport/Session.antt =====
-- A session on the serial line in transport/serial.py: `_read_loop`, `reset`, `_connect_and_run` and `run`.
-- What each read gives, how handlers of the service end, and how a session goes are arguments.
pub mod Tidy
use arduino_yun_bridge.Base.{
  ◌&&◌, ◌+◌, ◌==◌, List, not, Bool, Option, Bytes, ℕ, if◌then◌else◌, none, some, [], ◌∷◌,
}
use arduino_yun_bridge.Frame.{Payload, Wire}
use arduino_yun_bridge.Protocol.Status
use arduino_yun_bridge.Transport.{Cobs, Config, Transport, Io}
use arduino_yun_bridge.Transport.Correlation.{Pending, mark_failure}
use arduino_yun_bridge.Transport.Receive.{process_packet}

-- How the service's handling of a packet ends: with an exception that the read loop catches (OSError,
-- RuntimeError, ValueError, TypeError, SerialException), or with another, such as the DecodeError of
-- protobuf or an AttributeError.
pub data Handling : Type 0 where
  handled caught uncaught : Handling

-- What a turn of the loop meets: the stop event, the bytes before the next delimiter, or an exception of
-- `readuntil`.
pub data Read (M : Type 0) : Type 0 where
  stop_set incomplete read_failed : Read M
  limit_overrun : Read M
  -- what the service makes of the frame comes with it
  packet : Bytes → Io → (Transport M → Transport M) → Handling → Read M

-- The read task still runs, has ended, or has ended with an exception of its own.
pub data ReadTask : Type 0 where
  running ended escaped : ReadTask

module _ (w : Wire) (c : Cobs) (cfg : Config) (read_ack : Payload w.Message → Option ℕ)
    (baud_packet : ℕ → w.Message) where
  -- An overrun drops what has come, so that its frames are lost.
  unfoldable pub read_loop :
      List (Read w.Message) → Transport w.Message → Transport w.Message × ReadTask
  unfolding process_packet
  read_loop [] t = (t, running)
  read_loop (stop_set ∷ reads) t = (t, ended)
  read_loop (incomplete ∷ reads) t = (t, ended)
  read_loop (read_failed ∷ reads) t = (t, ended)
  read_loop (limit_overrun ∷ reads) t =
      read_loop reads (record t { serial_decode_errors = t.serial_decode_errors + 1 })
  read_loop (packet [] io serve handling ∷ reads) t = read_loop reads t
  read_loop (packet (b ∷ bs) io serve handled ∷ reads) t =
      read_loop reads (process_packet w c cfg read_ack baud_packet io serve (b ∷ bs) t)
  read_loop (packet (b ∷ bs) io serve caught ∷ reads) t =
      (process_packet w c cfg read_ack baud_packet io serve (b ∷ bs) t, ended)
  read_loop (packet (b ∷ bs) io serve uncaught ∷ reads) t =
      (process_packet w c cfg read_ack baud_packet io serve (b ∷ bs) t, escaped)

-- How `on_serial_connected` and the wait behind it go: they may be left by an exception, by a
-- `SerialHandshakeFatal`, and by a cancellation.
pub data Greeting : Type 0 where
  greeted greeting_raised greeting_fatal greeting_cancelled : Greeting

-- How one session goes.
pub record Course : Type 0 where
  pub number : ℕ
  -- the port could be opened
  pub opened : Bool
  -- `_negotiate_baudrate` returned True
  pub negotiated : Bool
  pub greeting : Greeting
  -- the stop event came before the end of the read task
  pub stopped : Bool
  -- the read task when the session is cleaned up
  pub reader : ReadTask

-- Returned; raised, which is tried again; or left by a `SerialHandshakeFatal` or a cancellation, which are
-- not tried again.
pub data Ended : Type 0 where
  returned raised given_up : Ended

-- `connected` is what `on_serial_connected` and the time until the end of the session make of the state, in
-- the session of that number; `disconnected` is `on_serial_disconnected`; `waited` is what other tasks make
-- of the state before the session of that number, while the port is opened or the next try is waited for.
module _ {S : Type 0} (connected : ℕ → S → S) (disconnected : S → S) (waited : ℕ → S → S)
    (cfg : Config) where
  abbrev default_safe_baud : ℕ
  default_safe_baud = 115200

  -- `self.config.serial_safe_baud or protocol.DEFAULT_SAFE_BAUDRATE`
  abbrev connect_baud : ℕ
  connect_baud = if cfg.serial_safe_baud == 0 then default_safe_baud else cfg.serial_safe_baud

  -- The `finally`: an exception of the read task leaves it before `on_serial_disconnected`.
  abbrev pub clean_up : ReadTask → Ended → S → S × Ended
  clean_up running e s = (disconnected s, e)
  clean_up ended e s = (disconnected s, e)
  clean_up escaped e s = (s, raised)

  abbrev pub outcome : Course → Ended
  outcome course = elim course.greeting [
    | greeted ↦ if course.stopped then returned else raised
    | greeting_raised ↦ raised
    | greeting_fatal ↦ given_up
    | greeting_cancelled ↦ given_up
  ]

  -- `_negotiate_baudrate` is needed, and fails.
  abbrev pub baud_refused : Course → Bool
  baud_refused course = not (cfg.serial_baud == connect_baud) && not course.negotiated

  abbrev pub session : Course → S → S × Ended
  session course s =
      if baud_refused course
      then clean_up course.reader raised s
      else clean_up course.reader (outcome course) (connected course.number s)

  unfoldable pub connect_and_run : Course → S → S × Ended
  connect_and_run course s = if not course.opened then (s, raised) else session course s

  abbrev pub unless_returned : Ended → S → S → S
  unless_returned returned s next = s
  unless_returned raised s next = next
  unless_returned given_up s next = s

  -- The sessions, one after the other, until one returns.
  unfoldable pub run : List Course → S → S
  unfolding connect_and_run
  run [] s = s
  run (course ∷ courses) s =
      let (after, e) = connect_and_run course (waited course.number s) in
      unless_returned e after (run courses after)

module _ {M : Type 0} where
  abbrev failed_current : Option (Pending M) → Option (Pending M)
  failed_current none = none
  failed_current (some p) = some (mark_failure (some (Status.value Status.timeout)) p)

  -- `reset`: what the command in flight becomes for its sender, and the transport without it.
  unfoldable pub reset : Transport M → Option (Pending M) × Transport M
  unfolding mark_failure
  reset t = (failed_current t.current, record t { current = none })
