-- ===== src/Transport/Send.antt =====
-- `send` of transport/serial.py: tracked sends with retries. What happens while an attempt waits is a
-- list of events: packets of the MCU, and frames that other tasks send untracked.
use arduino_yun_bridge.Base.{
  ℕ, zero, suc, ◌+◌, Bool, false, ◌||◌, ◌&&◌, not, Option, none, some, List, [], ◌∷◌, if◌then◌else◌,
  ◌==◌, is_empty, Bytes,
}
use arduino_yun_bridge.Protocol.{expected_responses, is_ack_only}
use arduino_yun_bridge.Protocol.Command
use arduino_yun_bridge.Frame.{Payload, Wire}
use arduino_yun_bridge.Transport.Correlation.{Pending}
use arduino_yun_bridge.Transport.{
  Cobs, Config, Transport, Sent, written, failed, raised, Io, send_raw,
}
use arduino_yun_bridge.Transport.Receive.{process_packet}

pub data Event (M : Type 0) : Type 0 where
  -- a packet, with what the service makes of its frame
  packet : Io → (Transport M → Transport M) → Bytes → Event M
  other : Io → ℕ → Payload M → Option ℕ → Event M

-- One attempt: the write of the frame, then the events until the wait ends, by the completion or by
-- the response timeout.
pub record Attempt (M : Type 0) : Type 0 where
  pub io : Io
  pub events : List (Event M)

-- `send` returns False, True, or the response, or an exception leaves it.
pub data Reply (M : Type 0) : Type 0 where
  refused done error : Reply M
  response : Payload M → Reply M

-- What an attempt ends with: a reply, a failure that is not retried, or another attempt.
pub data Verdict (M : Type 0) : Type 0 where
  replied : Reply M → Verdict M
  fatal : Option ℕ → Verdict M
  retry : Verdict M

abbrev is_success : Option Bool → Bool
is_success none = false
is_success (some b) = b

unfoldable pub is_tracked : ℕ → Bool
is_tracked command_id =
    not ((command_id == Command.link_sync) || (command_id == Command.link_reset))
    && (not (is_empty (expected_responses command_id)) || is_ack_only command_id)

module _ {M : Type 0} where
  unfoldable pub new_pending : ℕ → Pending M
  new_pending command_id = record {
    command_id = command_id;
    expected_resp_ids = expected_responses command_id;
    attempts = 0;
    success = none;
    failure_status = none;
    ack_received = false;
    completion = false;
    response_payload = none;
  }

  -- The head of `_send_attempt`.
  abbrev pub count_attempt : Option (Pending M) → Option (Pending M)
  count_attempt none = none
  count_attempt (some p) =
      some (record p { attempts = p.attempts + 1; ack_received = false; success = none })

  abbrev reply_of : Option (Payload M) → Reply M
  reply_of none = done
  reply_of (some p) = response p

  abbrev unless_failed : Option ℕ → Verdict M
  unless_failed none = retry
  unless_failed (some status) = fatal (some status)

  -- Behind the wait: `completion` is set, or the timeout came.
  unfoldable pub judge : Option (Pending M) → Verdict M
  judge none = retry
  judge (some p) =
      if p.completion
      then if is_success p.success
        then replied (reply_of p.response_payload)
        else unless_failed p.failure_status
      else retry

module _ (w : Wire) (c : Cobs) (cfg : Config) (read_ack : Payload w.Message → Option ℕ)
    (baud_packet : ℕ → w.Message) where
  unfoldable pub handle_event : Event w.Message → Transport w.Message → Transport w.Message
  handle_event (packet io serve encoded) t =
      process_packet w c cfg read_ack baud_packet io serve encoded t
  handle_event (other io command_id payload seq_id) t =
      (send_raw w c io command_id payload seq_id t).0

  unfoldable pub handle_events : List (Event w.Message) → Transport w.Message → Transport w.Message
  unfolding handle_event
  handle_events [] t = t
  handle_events (e ∷ es) t = handle_events es (handle_event e t)

  abbrev after_write :
      Attempt w.Message → Transport w.Message × Sent → Transport w.Message × Verdict w.Message
  after_write a (t, raised) = (t, replied error)
  after_write a (t, failed) = (t, fatal none)
  after_write a (t, written) = let t' = handle_events a.events t in (t', judge t'.current)

  unfoldable pub send_attempt :
      Attempt w.Message
      → ℕ
      → Payload w.Message
      → Transport w.Message
      → Transport w.Message × Verdict w.Message
  send_attempt a command_id payload t =
      after_write a
        (send_raw w c a.io command_id payload none (record t { current = count_attempt t.current }))

  -- `attempts` gives what happens at each attempt; the number counts those that are left.
  unfoldable pub retry_loop :
      (ℕ → Attempt w.Message)
      → ℕ
      → ℕ
      → Payload w.Message
      → Transport w.Message
      → Transport w.Message × Reply w.Message
  unfolding send_attempt
  retry_loop attempts zero command_id payload t = (t, refused)
  retry_loop attempts (suc left) command_id payload t =
      let (t', verdict) = send_attempt (attempts left) command_id payload t in
      elim verdict [
        | replied r ↦ (t', r)
        | fatal status ↦ (t', refused)
        | retry ↦ retry_loop attempts left command_id payload t'
      ]

  abbrev untracked : Transport w.Message × Sent → Transport w.Message × Reply w.Message
  untracked (t, written) = (t, done)
  untracked (t, failed) = (t, refused)
  untracked (t, raised) = (t, error)

  abbrev forget : Transport w.Message × Reply w.Message → Transport w.Message × Reply w.Message
  forget (t, r) = (record t { current = none }, r)

  -- `max_attempts` is at least 1; an untracked send takes its io from the first attempt.
  unfoldable pub send :
      (ℕ → Attempt w.Message)
      → ℕ
      → ℕ
      → Payload w.Message
      → Option ℕ
      → Transport w.Message
      → Transport w.Message × Reply w.Message
  unfolding retry_loop
  send attempts max_attempts command_id payload seq_id t =
      if not t.is_open
      then (t, refused)
      else if is_tracked command_id
      then forget (
          retry_loop attempts max_attempts command_id payload
            (record t { current = some (new_pending command_id) }))
      else untracked (send_raw w c (attempts 0).io command_id payload seq_id t)
