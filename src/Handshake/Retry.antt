-- ===== src/Handshake/Retry.antt =====
-- `synchronize` of mcubridge/mcubridge/services/handshake.py: attempts until one works or the fatal threshold
-- is reached. The retrying is the tenacity package's.
use arduino_yun_bridge.Base.{◌-◌, ℕ, zero, suc, ◌+◌, ◌≡◌, Bool, true, false, arith, max}
use arduino_yun_bridge.Link.{is_synchronized}
use arduino_yun_bridge.Handshake.{
  fault, synchronized, HandshakeState, Kdf, Config, Manager, set_fsm_state,
}
use arduino_yun_bridge.Handshake.Sync.{Course, deliver, synchronize_attempt}
use arduino_yun_bridge.Handshake.Attempt.{attempt-IsCoupled, attempt_reports_link}
use arduino_yun_bridge.Handshake.Coupling.{IsCoupled, deliver-IsCoupled}

-- `AsyncRetrying` with `stop_after_attempt` and `retry_if_result` for False: the attempts that are left,
-- the call for each attempt number, and that of the first attempt to make. False stands for a
-- `RetryError`.
pub record Retrying : Type 1 where
  pub run : {M : Type 0} → ℕ → (ℕ → M → M × Bool) → ℕ → M → M × Bool

-- After a result that is not False, tenacity returns; after the last attempt, it raises.
abbrev pub go_on : {M : Type 0} → Retrying → ℕ → (ℕ → M → M × Bool) → ℕ → M × Bool → M × Bool
go_on t left attempt number (m, true) = (m, true)
go_on t left attempt number (m, false) = t.run left attempt number m

-- The documented behaviour of tenacity.
pub record IsRetrying (t : Retrying) : Type 1 where
  pub last :
      {M : Type 0} (attempt : ℕ → M → M × Bool) (number : ℕ) (m : M)
      → t.run 1 attempt number m ≡ attempt number m
  pub next :
      {M : Type 0} (left : ℕ) (attempt : ℕ → M → M × Bool) (number : ℕ) (m : M)
      → t.run (suc (suc left)) attempt number m
        ≡ go_on t (suc left) attempt (number + 1) (attempt number m)

abbrev pub fatal_threshold : Config → ℕ
fatal_threshold cfg = max 1 cfg.serial_handshake_fatal_failures

module _ (t : Retrying) (kdf : Kdf) (cfg : Config) where
  abbrev pub give_up : Manager × Bool → Manager × Bool
  give_up (m, true) = (m, true)
  give_up (m, false) = (set_fsm_state fault m, false)

  -- An attempt behind the sleep that tenacity puts before all but the first, in which answers may come.
  unfoldable pub after_backoff : Course → Manager → Manager × Bool
  unfolding synchronize_attempt deliver
  after_backoff c m = synchronize_attempt kdf cfg c (deliver kdf cfg c.in_backoff m)

  -- `courses`: what happens around each attempt.
  unfoldable pub synchronize : (ℕ → Course) → Manager → Manager × Bool
  unfolding after_backoff set_fsm_state
  synchronize courses m =
      give_up (t.run (fatal_threshold cfg) (λ number. after_backoff (courses number)) 0 m)

  -- The link is as the result says, and coupled to the machine.
  abbrev IsReported : Manager × Bool → Type 0
  IsReported r = IsCoupled r.0 × (r.1 ≡ is_synchronized r.0.link)

  go_on-IsReported :
      (left number : ℕ) (courses : ℕ → Course) (r : Manager × Bool)
      → ((m : Manager)
          → IsCoupled m
          → IsReported (t.run left (λ n. after_backoff (courses n)) number m))
      → IsReported r
      → IsReported (go_on t left (λ n. after_backoff (courses n)) number r)
  go_on-IsReported left number courses (m, true) ih (coupled, agrees) = (coupled, agrees)
  go_on-IsReported left number courses (m, false) ih (coupled, agrees) = ih m coupled

  attempt-IsReported : (c : Course) (m : Manager) → IsCoupled m → IsReported (after_backoff c m)
  unfolding after_backoff
  attempt-IsReported c m i =
      let slept = deliver-IsCoupled kdf cfg c.in_backoff m i in
      (
        attempt-IsCoupled kdf cfg c (deliver kdf cfg c.in_backoff m) slept,
        attempt_reports_link kdf cfg c (deliver kdf cfg c.in_backoff m) slept,
      )

  run-IsReported :
      IsRetrying t
      → (left number : ℕ) (courses : ℕ → Course) (m : Manager) → IsCoupled m
      → IsReported (t.run (suc left) (λ n. after_backoff (courses n)) number m)
  run-IsReported law zero number courses m i =
      rw (law.last (λ n. after_backoff (courses n)) number m)
        (attempt-IsReported (courses number) m i)
  run-IsReported law (suc left) number courses m i =
      rw (law.next left (λ n. after_backoff (courses n)) number m) (
        go_on-IsReported (suc left) (number + 1) courses (after_backoff (courses number) m)
          (λ m' i'. run-IsReported law left (number + 1) courses m' i')
          (attempt-IsReported (courses number) m i))

  -- The state of the machine that the result tells.
  abbrev pub final_state : Bool → HandshakeState
  final_state true = synchronized
  final_state false = fault

  give_up_lem :
      (r : Manager × Bool)
      → IsReported r
      → IsReported (give_up r) × ((give_up r).0.fsm_state ≡ final_state (give_up r).1)
  give_up_lem (m, true) (coupled, agrees) = unfold is_synchronized in ground arith
  give_up_lem (m, false) (coupled, agrees) = unfold is_synchronized set_fsm_state in ground arith

  pub threshold_suc : (n : ℕ) → (k : ℕ) × (max 1 n ≡ suc k)
  threshold_suc n = (max 1 n - 1, omega arith)

  -- Given how tenacity is documented to retry, and from a state in which they are coupled, `synchronize`
  -- ends with the machine synchronised, the link synchronised and the result true, or with the machine
  -- at fault, the link not synchronised and the result false, and the two coupled.
  pub synchronize_lem :
      IsRetrying t
      → (courses : ℕ → Course) (m : Manager) → IsCoupled m
      → IsReported (synchronize courses m)
        × ((synchronize courses m).0.fsm_state ≡ final_state (synchronize courses m).1)
  unfolding synchronize
  synchronize_lem law courses m i =
      let (k, e) = threshold_suc cfg.serial_handshake_fatal_failures in
      rw e (
        give_up_lem (t.run (suc k) (λ n. after_backoff (courses n)) 0 m)
          (run-IsReported law k 0 courses m i))
