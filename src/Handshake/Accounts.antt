-- ===== src/Handshake/Accounts.antt =====
-- The counters and delays of the failure path of services/handshake.py.
use arduino_yun_bridge.Base.{
  if◌then◌else◌, refl, ◌^◌, ◌*◌, ◌-◌, min, max, ℕ, ◌+◌, ◌≤◌, ◌≡◌, ◌↔◌, ◌⊎◌, inl, inr, true, none,
  some, Option, arith, ltb, Bool-cases,
}
use native.Mathlib.Nat.{pow-le-pow_right, one-le-pow}
use arduino_yun_bridge.Link.{connected, Reason, Detail}
use arduino_yun_bridge.Handshake.{fault, Kdf, Config, LinkSync, Manager, Clock}
use arduino_yun_bridge.Handshake.Failure.{
  immediate, fatal_threshold, backoff_delay, handle_handshake_failure,
}
use arduino_yun_bridge.Handshake.Response.{handle_link_sync_resp}

-- `_maybe_schedule_handshake_backoff` with the threshold as an argument.
abbrev delay_from : ℕ → ℕ → Option ℕ
delay_from threshold streak =
    if ltb (max 1 streak) threshold
    then none
    else some (min (1000 * 2 ^ (max 1 streak - threshold)) 60000)

delay_from_lem :
    (threshold streak d : ℕ)
    → delay_from threshold streak ≡ some d
    → (threshold ≤ max 1 streak) × (d ≡ min (1000 * 2 ^ (max 1 streak - threshold)) 60000)
delay_from_lem threshold streak d e = ground arith

delay_from_past :
    (threshold streak : ℕ)
    → threshold ≤ max 1 streak
    → delay_from threshold streak ≡ some (min (1000 * 2 ^ (max 1 streak - threshold)) 60000)
delay_from_past threshold streak h = ground arith

delay_from-bounded :
    (threshold s t d e : ℕ)
    → s ≤ t
    → delay_from threshold s ≡ some d
    → delay_from threshold t ≡ some e
    → (1000 ≤ d) × (d ≤ e) × (e ≤ 60000)
delay_from-bounded threshold s t d e le es et =
    let a = max 1 s - threshold in
    let b = max 1 t - threshold in
    let a≤b : a ≤ b = omega arith in
    let grows = pow-le-pow_right {n = 2} (omega arith) a≤b in
    let positive = one-le-pow a 2 (omega arith) in
    let (_, ds) = delay_from_lem threshold s d es in
    let (_, dt) = delay_from_lem threshold t e et in (omega arith, omega arith, omega arith)

-- A wait is scheduled exactly from the third failure in a row on, or at once for a forged answer.
pub backoff_scheduled_iff :
    (reason : Reason) (streak : ℕ)
    → ((delay : ℕ) × (backoff_delay reason streak ≡ some delay))
      ↔ ((immediate reason ≡ true) ⊎ (3 ≤ streak))
unfolding backoff_delay
backoff_scheduled_iff reason streak = elim (Bool-cases (immediate reason)) [
  | inl yes' ↦ rw yes' ((λ x. inl refl), λ x. (_, delay_from_past 1 streak (omega arith)))
  | inr no' ↦ rw no' (
    (λ (d, e). inr (let l = delay_from_lem 3 streak d e in omega arith)),
    λ h. (_, delay_from_past 3 streak (ground arith)),
  )
]

-- Every scheduled wait is between one second and one minute, and a longer streak of the same reason
-- never waits less.
pub backoff_bounded :
    (reason : Reason) (s t d e : ℕ)
    → s ≤ t
    → backoff_delay reason s ≡ some d
    → backoff_delay reason t ≡ some e
    → (1000 ≤ d) × (d ≤ e) × (e ≤ 60000)
unfolding backoff_delay
backoff_bounded reason s t d e = delay_from-bounded (if immediate reason then 1 else 3) s t d e

module _ (cfg : Config) (clock : Clock) where
  -- A failure counts as fatal exactly if its reason is immediately fatal or it brings the streak of
  -- failures to the configured threshold; otherwise the fatal record stays as it was.
  pub fatal_iff :
      (reason : Reason) (text : Detail) (m : Manager)
      → let l = m.link in
        let l' = (handle_handshake_failure cfg clock reason text m).link in
        ((l'.handshake_fatal_count ≡ l.handshake_fatal_count + 1)
          ↔ ((immediate reason ≡ true) ⊎ (fatal_threshold cfg ≤ l.handshake_failure_streak + 1)))
        × ((l'.handshake_fatal_count ≡ l.handshake_fatal_count + 1)
            ⊎ (l'.handshake_fatal_count ≡ l.handshake_fatal_count))
  fatal_iff reason text m = unfold handle_handshake_failure in ground arith

  module _ (kdf : Kdf) (seq_id : ℕ) where
    -- An answer that comes when no challenge is pending, such as a repeated one on a synchronised link,
    -- tears the link down: the machine is at fault and the link only connected, while the event that
    -- waiters for synchronisation test stays as it was, and so does the session key.
    pub unexpected_answer_tears_down :
        (payload : Option LinkSync) (m : Manager)
        → m.link.link_handshake_nonce ≡ none
        → let m' = (handle_link_sync_resp kdf cfg clock seq_id payload m).0 in
          (m'.fsm_state ≡ fault)
          × (m'.link.phase ≡ connected)
          × (m'.link.link_sync_event ≡ m.link.link_sync_event)
          × (m'.link.link_session_key ≡ m.link.link_session_key)
    unexpected_answer_tears_down payload m h =
        unfold handle_link_sync_resp handle_handshake_failure in ground arith
