-- ===== src/Transport/Tracking.antt =====
-- What settles a tracked command.
use arduino_yun_bridge.Base.{ℕ, ◌≡◌, ◌≢◌, ◌↔◌, true, false, Option, none, some, [], arith}
use arduino_yun_bridge.Frame.{Payload}
use arduino_yun_bridge.Transport.Correlation.{
  Pending, ack_target, answers, is_failure_status, is_success_status, correlate,
}

module _ {M : Type 0} (read_ack : Payload M → Option ℕ) where
  -- The frame settles the command well: its ACK or OK where no response is expected, or its response.
  pub data Confirms (command_id : ℕ) (payload : Payload M) (p : Pending M) : Type 0 where
    by_ack :
        command_id ≡ 56
        → ack_target read_ack payload p ≡ p.command_id
        → p.expected_resp_ids ≡ []
        → Confirms command_id payload p
    by_response :
        command_id ≢ 56 → answers command_id p.command_id ≡ true → Confirms command_id payload p
    by_ok : command_id ≡ 48 → p.expected_resp_ids ≡ [] → Confirms command_id payload p

  -- The frame reports a failure.
  pub record Refutes (command_id : ℕ) (p : Pending M) : Type 0 where
    pub status : is_failure_status command_id ≡ true
    pub other : answers command_id p.command_id ≡ false

  confirmed :
      (command_id : ℕ) (payload : Payload M) (p : Pending M)
      → p.success ≡ none
      → (correlate read_ack command_id payload p).success ≡ some true
      → Confirms command_id payload p
  confirmed command_id payload p pending won = unfold correlate is_success_status in ground arith

  success_of :
      (command_id : ℕ) (payload : Payload M) (p : Pending M)
      → p.success ≡ none
      → Confirms command_id payload p
      → (correlate read_ack command_id payload p).success ≡ some true
  success_of command_id payload p pending (by_ack a b d) = unfold correlate in ground arith
  success_of command_id payload p pending (by_response a b) = unfold correlate in ground arith
  success_of command_id payload p pending (by_ok a b) =
      unfold correlate is_failure_status is_success_status in ground arith

  refuted :
      (command_id : ℕ) (payload : Payload M) (p : Pending M)
      → p.success ≡ none
      → ((correlate read_ack command_id payload p).success ≡ some false) ↔ Refutes command_id p
  refuted command_id payload p pending = unfold correlate is_failure_status in ground arith

  -- A command in flight succeeds exactly on its ACK or an OK, if no response is expected, or on its
  -- response; it fails exactly on a failure status; a settled command stays as it is.
  pub correlate_settles :
      (command_id : ℕ) (payload : Payload M) (p : Pending M)
      → let p' = correlate read_ack command_id payload p in
        (p.success ≡ none
          → ((p'.success ≡ some true) ↔ Confirms command_id payload p)
            × ((p'.success ≡ some false) ↔ Refutes command_id p))
        × (p.success ≢ none → p' ≡ p)
  correlate_settles command_id payload p = (
    λ pending. (
      (confirmed command_id payload p pending, success_of command_id payload p pending),
      refuted command_id payload p pending,
    ),
    λ settled. unfold correlate in ground arith,
  )
