-- ===== src/Handshake/Sync.antt =====
-- One attempt of `SerialHandshakeManager.synchronize`. The attempt is a coroutine: wherever it waits,
-- the read loop may handle answers of the MCU. Which ones, in which order, is an argument, one list
-- for each place; so are the results of the two sends and the clock readings.
use arduino_yun_bridge.Base.{
  ℕ, ◌+◌, Bool, true, false, Option, none, some, List, [], ◌∷◌, if◌then◌else◌, Bytes, text_eq,
}
use arduino_yun_bridge.Protocol.Command
use arduino_yun_bridge.Link.{
  Link, Reason, no_detail, link_reset_send_failed, link_sync_send_failed, link_sync_timeout,
  is_synchronized,
}
use arduino_yun_bridge.Handshake.{
  unsynchronized, resetting, syncing, confirming, synchronized, fault, Kdf, Config, sent, Manager,
  LinkSync, Clock, emit, with_link, same_state, set_fsm_state,
}
use arduino_yun_bridge.Handshake.Failure.{handle_handshake_failure}
use arduino_yun_bridge.Handshake.Response.{
  calculate_handshake_tag, clear_handshake_expectations, handle_link_sync_resp,
}

abbrev pub handshake_nonce_length : ℕ
handshake_nonce_length = 16

-- A LINK_SYNC_RESP as the read loop hands it over.
pub record Answer : Type 0 where
  pub clock : Clock
  pub seq_id : ℕ
  pub payload : Option LinkSync

-- What happens around one attempt.
pub record Course : Type 0 where
  -- `secrets.token_bytes(HANDSHAKE_NONCE_LENGTH)`
  pub nonce : Bytes
  pub start : Clock
  pub failed_at : Clock
  pub reset_ok : Bool
  pub sync_ok : Bool
  -- answers handled in the sleep before the attempt, if it is not the first
  pub in_backoff : List Answer
  -- answers handled while the reset is sent, in the first and the second sleep, while the
  -- synchronisation is sent, and until the wait for the event ends
  pub in_reset : List Answer
  pub in_settling : List Answer
  pub in_syncing : List Answer
  pub in_sync : List Answer
  pub in_wait : List Answer

-- `pending_nonce == nonce`
abbrev is_nonce : Option Bytes → Bytes → Bool
is_nonce none nonce = false
is_nonce (some n) nonce = text_eq n nonce

module _ (kdf : Kdf) (cfg : Config) where
  unfoldable pub deliver : List Answer → Manager → Manager
  deliver [] m = m
  deliver (a ∷ as') m = deliver as' (handle_link_sync_resp kdf cfg a.clock a.seq_id a.payload m).0

  -- `_attempt`, up to the call of `_synchronize_attempt`
  unfoldable pub begin_attempt : Clock → Manager → Manager
  begin_attempt clock m = set_fsm_state unsynchronized (
      with_link m (record m.link {
        handshake_attempts = m.link.handshake_attempts + 1;
        last_handshake_unix = clock.unix;
        handshake_last_started = clock.monotonic;
      }))

  abbrev expect : Bytes → Link → Link
  expect nonce l = record l {
    link_sync_event = false;
    link_handshake_nonce = some nonce;
    link_nonce_length = handshake_nonce_length;
    link_expected_tag = some (calculate_handshake_tag kdf cfg.serial_shared_secret nonce);
  }

  unfoldable pub start_reset : Bytes → Manager → Manager
  start_reset nonce m =
      let m' = set_fsm_state resetting m in
      emit (sent Command.link_reset) (with_link m' (expect nonce m'.link))

  -- Both failed sends take this way out.
  unfoldable pub abandon : Clock → Reason → Manager → Manager
  abandon clock reason m =
      handle_handshake_failure cfg clock reason no_detail (clear_handshake_expectations m)

  -- `_wait_for_link_sync_confirmation`: at once if synchronised, else when the event is set, or at
  -- the timeout.
  unfoldable pub wait_confirmation : List Answer → Manager → Manager × Bool
  unfolding deliver is_synchronized
  wait_confirmation answers m =
      if is_synchronized m.link
      then (m, true)
      else let m' = deliver answers m in
        if m'.link.link_sync_event then (m', is_synchronized m'.link) else (m', false)

  unfoldable pub time_out : Course → Manager → Manager
  unfolding clear_handshake_expectations
  time_out c m =
      let cleared = clear_handshake_expectations m in
      if is_nonce m.link.link_handshake_nonce c.nonce
      then handle_handshake_failure cfg c.failed_at link_sync_timeout no_detail cleared
      else cleared

  -- From the wait to the end.
  unfoldable pub conclude : Course → Manager × Bool → Manager × Bool
  unfolding time_out
  conclude c (m, false) = if same_state m.fsm_state fault then (m, false) else (time_out c m, false)
  conclude c (m, true) =
      let m' =
        if same_state m.fsm_state synchronized
        then m
        else if same_state m.fsm_state fault
        then m
        else set_fsm_state synchronized m in
      (m', same_state m'.fsm_state synchronized)

  abbrev pub confirm_unless_faulty : Course → Manager → Manager × Bool
  confirm_unless_faulty c m =
      if same_state m.fsm_state fault
      then (m, false)
      else conclude c (
          wait_confirmation c.in_wait
            (if same_state m.fsm_state syncing then set_fsm_state confirming m else m))

  -- From the sleep after LINK_RESET to the check behind LINK_SYNC.
  unfoldable pub send_sync : Course → Manager → Manager × Bool
  unfolding conclude wait_confirmation abandon
  send_sync c m =
      let ready = deliver c.in_syncing (set_fsm_state syncing (deliver c.in_settling m)) in
      let m' = deliver c.in_sync (emit (sent Command.link_sync) ready) in
      if c.sync_ok
      then confirm_unless_faulty c m'
      else (abandon c.failed_at link_sync_send_failed m', false)

  unfoldable pub synchronize_attempt : Course → Manager → Manager × Bool
  unfolding send_sync start_reset begin_attempt
  synchronize_attempt c m =
      let m' = deliver c.in_reset (start_reset c.nonce (begin_attempt c.start m)) in
      if c.reset_ok then send_sync c m' else (abandon c.failed_at link_reset_send_failed m', false)
