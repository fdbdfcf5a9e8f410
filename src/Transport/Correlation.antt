-- ===== src/Transport/Correlation.antt =====
-- A tracked command in flight: `PendingCommand` (protocol/structures.py) and `_correlate_frame`
-- (transport/serial.py).
use arduino_yun_bridge.Base.{
  ℕ, Bool, true, false, ◌&&◌, Option, none, some, List, [], ◌∷◌, if◌then◌else◌, ◌==◌, is_empty, any,
}
use arduino_yun_bridge.Protocol.{response_to_request}
use arduino_yun_bridge.Protocol.Status
use arduino_yun_bridge.Frame.{Payload, bytes}

pub record Pending (M : Type 0) : Type 0 where
  pub command_id : ℕ
  pub expected_resp_ids : List ℕ
  pub attempts : ℕ
  pub success : Option Bool
  pub failure_status : Option ℕ
  pub ack_received : Bool
  -- `completion.is_set()`
  pub completion : Bool
  pub response_payload : Option (Payload M)

abbrev is_some : Option Bool → Bool
is_some none = false
is_some (some b) = true

-- `SERIAL_FAILURE_STATUS_CODES` (config/const.py): the statuses but OK, OVERFLOW and ACK
unfoldable pub is_failure_status : ℕ → Bool
is_failure_status command_id =
    any (λ s. Status.value s == command_id)
      (Status.error ∷ Status.cmd_unknown ∷ Status.malformed ∷ Status.crc_mismatch ∷ Status.timeout
        ∷ Status.not_implemented ∷ [])

-- `SERIAL_SUCCESS_STATUS_CODES`
unfoldable pub is_success_status : ℕ → Bool
is_success_status command_id = command_id == Status.value Status.ok

-- `response_to_request(command_id) == pending.command_id`
unfoldable pub answers : ℕ → ℕ → Bool
answers command_id target = elim (response_to_request command_id) [
  | none ↦ false
  | some req ↦ req == target
]

module _ {M : Type 0} where
  unfoldable pub mark_success : Payload M → Pending M → Pending M
  mark_success payload p = record p {
    response_payload = some payload;
    success = some true;
    completion = true;
  }

  -- `status` is None when the frame could not be sent.
  unfoldable pub mark_failure : Option ℕ → Pending M → Pending M
  mark_failure none p = record p { success = some false; completion = true }
  mark_failure (some status) p = record p {
    success = some false;
    failure_status = some status;
    completion = true;
  }

  -- The command an ACK names: the field of a message, the decoded bytes, or the pending command. The
  -- parameter reads either: `none` where there is no such field or the bytes do not decode.
  unfoldable pub ack_target : (Payload M → Option ℕ) → Payload M → Pending M → ℕ
  ack_target read_ack (bytes []) p = p.command_id
  ack_target read_ack payload p = elim (read_ack payload) [ none ↦ p.command_id | some id ↦ id ]

  abbrev confirm : Payload M → Pending M → Pending M
  confirm payload p = if is_empty p.expected_resp_ids then mark_success payload p else p

  abbrev on_ack : (Payload M → Option ℕ) → Payload M → Pending M → Pending M
  on_ack read_ack payload p =
      if ack_target read_ack payload p == p.command_id
      then confirm payload (record p { ack_received = true })
      else p

  -- A response, a failure status, or the success status.
  abbrev on_other : ℕ → Payload M → Pending M → Pending M
  on_other command_id payload p =
      if answers command_id p.command_id
      then mark_success payload p
      else if is_failure_status command_id
      then mark_failure (some command_id) p
      else if is_success_status command_id && is_empty p.expected_resp_ids
      then mark_success payload p
      else p

  unfoldable pub correlate : (Payload M → Option ℕ) → ℕ → Payload M → Pending M → Pending M
  unfolding ack_target mark_success mark_failure
  correlate read_ack command_id payload p =
      if is_some p.success
      then p
      else if command_id == Status.value Status.ack
      then on_ack read_ack payload p
      else on_other command_id payload p
