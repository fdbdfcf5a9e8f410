-- ===== src/Handshake/Attempt.antt =====
-- What one attempt of `synchronize` leaves behind, whatever answers arrive while it waits.
use arduino_yun_bridge.Base.{
  ◌∙◌, sym, ◌+◌, ◌≤◌, ◌≡◌, ◌≢◌, inl, inr, Bool, true, false, some, List, arith, Bytes, is_empty,
  Bool-cases, if◌then◌else◌,
}
use arduino_yun_bridge.Link.{
  Link, Reason, no_detail, is_synchronized, link_reset_send_failed, link_sync_send_failed,
  link_sync_timeout,
}
use arduino_yun_bridge.Link
use arduino_yun_bridge.Protocol.Command
use arduino_yun_bridge.Handshake.{
  Effect, syncing, confirming, fault, Kdf, Config, Manager, Clock, sent, emit, same_state,
  set_fsm_state,
}
use arduino_yun_bridge.Handshake.Response.{calculate_session_key, clear_handshake_expectations}
use arduino_yun_bridge.Handshake.Sync.{
  confirm_unless_faulty, Answer, Course, deliver, begin_attempt, start_reset, abandon,
  wait_confirmation, time_out, conclude, send_sync, synchronize_attempt,
}
use arduino_yun_bridge.Handshake.Steps.{failure-IsFailed}
use arduino_yun_bridge.Handshake.Coupling.{IsCoupled, IsBound, deliver-IsCoupled, deliver-IsBound}

module _ (kdf : Kdf) (cfg : Config) where
  -- Both invariants at once, for the challenge `n`.
  record IsSound (n : Bytes) (m : Manager) : Type 0 where
    coupled : IsCoupled m
    bound : IsBound kdf cfg n m

  deliver-IsSound :
      (n : Bytes) (as' : List Answer) (m : Manager)
      → IsSound n m
      → IsSound n (deliver kdf cfg as' m)
  deliver-IsSound n as' m s = record {
    coupled = deliver-IsCoupled kdf cfg as' m s.coupled;
    bound = deliver-IsBound kdf cfg n as' m s.bound;
  }

  begin-IsCoupled :
      (clock : Clock) (m : Manager) → IsCoupled m → IsCoupled (begin_attempt kdf cfg clock m)
  begin-IsCoupled clock m c = unfold begin_attempt set_fsm_state in ground arith

  begin_paid :
      (clock : Clock) (m : Manager)
      → IsCoupled m
      → (begin_attempt kdf cfg clock m).link.handshake_successes + 1
        ≤ (begin_attempt kdf cfg clock m).link.handshake_attempts
  begin_paid clock m c = unfold begin_attempt set_fsm_state in ground arith

  begin_unsynchronized :
      (clock : Clock) (m : Manager)
      → IsCoupled m
      → (begin_attempt kdf cfg clock m).link.phase ≢ Link.Phase.synchronized
  begin_unsynchronized clock m c = unfold begin_attempt set_fsm_state in ground arith

  start-IsSound :
      (c : Course) (m : Manager)
      → IsCoupled m
      → IsSound c.nonce (start_reset kdf cfg c.nonce (begin_attempt kdf cfg c.start m))
  start-IsSound c m i =
      let m' = begin_attempt kdf cfg c.start m in
      let paid = begin_paid c.start m i in
      let off = begin_unsynchronized c.start m i in
      unfold start_reset set_fsm_state in ground (arith, paid, off)

  syncing-IsSound : (n : Bytes) (m : Manager) → IsSound n m → IsSound n (set_fsm_state syncing m)
  syncing-IsSound n m s = unfold set_fsm_state in ground arith

  confirming-IsSound :
      (n : Bytes) (m : Manager) → IsSound n m → IsSound n (set_fsm_state confirming m)
  confirming-IsSound n m s = unfold set_fsm_state in ground arith

  -- An abandoned attempt leaves the link connected.
  abandon_lem :
      (n : Bytes) (clock : Clock) (reason : Reason) (m : Manager)
      → IsSound n m
      → IsSound n (abandon kdf cfg clock reason m)
        × (is_synchronized (abandon kdf cfg clock reason m).link ≡ false)
  abandon_lem n clock reason m s =
      let m' = clear_handshake_expectations m in
      let failed = failure-IsFailed cfg clock reason no_detail m' in
      (
        unfold abandon clear_handshake_expectations in ground (arith, failed),
        unfold abandon is_synchronized in ground (arith, failed),
      )

  -- A result that says whether the link is synchronised.
  record IsConcluded (n : Bytes) (r : Manager × Bool) : Type 0 where
    sound : IsSound n r.0
    agrees : r.1 ≡ is_synchronized r.0.link

  wait-IsConcluded :
      (n : Bytes) (as' : List Answer) (m : Manager)
      → IsSound n m
      → IsConcluded n (wait_confirmation kdf cfg as' m)
  wait-IsConcluded n as' m s =
      let s' = deliver-IsSound n as' m s in
      unfold wait_confirmation is_synchronized in ground (arith, s')

  time_out_lem :
      (n : Bytes) (c : Course) (m : Manager)
      → IsSound n m
      → is_synchronized m.link ≡ false
      → IsConcluded n (time_out kdf cfg c m, false)
  time_out_lem n c m s off =
      let failed =
        failure-IsFailed cfg c.failed_at link_sync_timeout no_detail
          (clear_handshake_expectations m) in
      unfold time_out clear_handshake_expectations is_synchronized in ground (arith, failed)

  conclude-IsConcluded :
      (n : Bytes) (c : Course) (r : Manager × Bool)
      → IsConcluded n r
      → IsConcluded n (conclude kdf cfg c r)
  conclude-IsConcluded n c (m, false) s =
      let timed = time_out_lem n c m s.sound (unfold is_synchronized in ground arith) in
      unfold conclude in ground (arith, timed)
  conclude-IsConcluded n c (m, true) s =
      unfold conclude set_fsm_state is_synchronized in ground arith

  abandon-IsConcluded :
      (n : Bytes) (clock : Clock) (reason : Reason) (m : Manager)
      → IsSound n m
      → IsConcluded n (abandon kdf cfg clock reason m, false)
  abandon-IsConcluded n clock reason m s =
      let both = abandon_lem n clock reason m s in record { sound = both.0; agrees = sym both.1 }

  emit-IsSound : (n : Bytes) (x : Effect) (m : Manager) → IsSound n m → IsSound n (emit x m)
  emit-IsSound n x m s = ground arith

  ready-IsSound :
      (n : Bytes) (m : Manager)
      → IsSound n m
      → IsSound n (if same_state m.fsm_state syncing then set_fsm_state confirming m else m)
  ready-IsSound n m s = unfold set_fsm_state in ground arith

  synchronized_phase : (l : Link) → is_synchronized l ≡ true → l.phase ≡ Link.Phase.synchronized
  unfolding is_synchronized
  synchronized_phase l h = ground arith

  sync-IsSound :
      (n : Bytes) (c : Course) (m : Manager)
      → IsSound n m
      → IsSound n (
          deliver kdf cfg c.in_sync (
            emit (sent Command.link_sync) (
              deliver kdf cfg c.in_syncing
                (set_fsm_state syncing (deliver kdf cfg c.in_settling m)))))
  sync-IsSound n c m s =
      let settled = deliver-IsSound n c.in_settling m s in
      let ready = deliver-IsSound n c.in_syncing _ (syncing-IsSound n _ settled) in
      deliver-IsSound n c.in_sync _ (emit-IsSound n (sent Command.link_sync) _ ready)

  confirm-IsConcluded :
      (n : Bytes) (c : Course) (m : Manager)
      → IsSound n m
      → IsConcluded n (confirm_unless_faulty kdf cfg c m)
  confirm-IsConcluded n c m s = elim (Bool-cases (same_state m.fsm_state fault)) [
    | inl at_fault ↦
        rw at_fault record { sound = s; agrees = unfold is_synchronized in ground arith }
    | inr no_fault ↦
        rw no_fault
          (conclude-IsConcluded n c _ (wait-IsConcluded n c.in_wait _ (ready-IsSound n m s)))
  ]

  send-IsConcluded :
      (n : Bytes) (c : Course) (m : Manager) → IsSound n m → IsConcluded n (send_sync kdf cfg c m)
  send-IsConcluded n c m s =
      let s' = sync-IsSound n c m s in
      elim (Bool-cases c.sync_ok) [
        | inl ok ↦ unfold send_sync in rw ok (confirm-IsConcluded n c _ s')
        | inr ok ↦
            unfold send_sync in rw ok (abandon-IsConcluded n c.failed_at link_sync_send_failed _ s')
      ]

  attempt-IsConcluded :
      (c : Course) (m : Manager)
      → IsCoupled m
      → IsConcluded c.nonce (synchronize_attempt kdf cfg c m)
  attempt-IsConcluded c m i =
      let s' = deliver-IsSound c.nonce c.in_reset _ (start-IsSound c m i) in
      elim (Bool-cases c.reset_ok) [
        | inl ok ↦ unfold synchronize_attempt in rw ok (send-IsConcluded c.nonce c _ s')
        | inr ok ↦
            unfold synchronize_attempt in
            rw ok (abandon-IsConcluded c.nonce c.failed_at link_reset_send_failed _ s')
      ]

  -- An attempt, whatever answers arrive while it waits and whichever sends fail, keeps the machine and
  -- the link coupled.
  pub attempt-IsCoupled :
      (c : Course) (m : Manager) → IsCoupled m → IsCoupled (synchronize_attempt kdf cfg c m).0
  attempt-IsCoupled c m i = (attempt-IsConcluded c m i).sound.coupled

  -- From a coupled state, an attempt returns true exactly if the link is synchronised when it ends.
  pub attempt_reports_link :
      (c : Course) (m : Manager)
      → IsCoupled m
      → (synchronize_attempt kdf cfg c m).1
        ≡ is_synchronized (synchronize_attempt kdf cfg c m).0.link
  attempt_reports_link c m i = (attempt-IsConcluded c m i).agrees

  -- From a coupled state and with a secret configured, an attempt that returns true leaves the session
  -- key that is derived from the secret and this attempt's own nonce, never that of an older one.
  pub attempt_keys :
      (c : Course) (m : Manager)
      → IsCoupled m
      → is_empty cfg.serial_shared_secret ≡ false
      → (synchronize_attempt kdf cfg c m).1 ≡ true
      → (synchronize_attempt kdf cfg c m).0.link.link_session_key
        ≡ some (calculate_session_key kdf cfg.serial_shared_secret c.nonce)
  attempt_keys c m i secret h =
      let done = attempt-IsConcluded c m i in
      let r = synchronize_attempt kdf cfg c m in
      done.sound.bound.key (synchronized_phase r.0.link (sym done.agrees ∙ h)) secret
