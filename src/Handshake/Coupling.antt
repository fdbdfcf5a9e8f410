-- ===== src/Handshake/Coupling.antt =====
-- The invariants that tie the machine to the link, through every answer.
use arduino_yun_bridge.Base.{
  refl, ◌∙◌, ℕ, ◌+◌, ◌≤◌, ◌≡◌, ◌⊎◌, inl, inr, true, false, Option, none, some, List, [], ◌∷◌, arith,
  Bytes, is_empty, Bool-cases,
}
use arduino_yun_bridge.Link.{Link}
use arduino_yun_bridge.Link
use arduino_yun_bridge.Handshake.{synchronized, Kdf, Config, Manager, LinkSync, Clock}
use arduino_yun_bridge.Handshake.Response.{calculate_session_key, handle_link_sync_resp}
use arduino_yun_bridge.Handshake.Sync.{Answer, deliver}
use arduino_yun_bridge.Handshake.Steps.{IsEstablished}
use arduino_yun_bridge.Handshake.Authentic.{
  IsUntouched, IsTornDown, IsGenuine, accepted_iff, accepted_establishes, refused_outcome,
}

-- Challenges that are open: one or none.
abbrev pub open_challenges : Option Bytes → ℕ
open_challenges none = 0
open_challenges (some n) = 1

-- A synchronised link has a synchronised machine and a set event, and every success was paid for by
-- an attempt.
pub record IsCoupled (m : Manager) : Type 0 where
  pub machine : m.link.phase ≡ Link.Phase.synchronized → m.fsm_state ≡ synchronized
  pub event : m.link.phase ≡ Link.Phase.synchronized → m.link.link_sync_event ≡ true
  pub counted :
      m.link.handshake_successes + open_challenges m.link.link_handshake_nonce
      ≤ m.link.handshake_attempts

module _ (kdf : Kdf) (cfg : Config) where
  -- While the challenge `n` is the last one: no other is pending, and a synchronised link has the
  -- session key of `n`.
  pub record IsBound (n : Bytes) (m : Manager) : Type 0 where
    pub pending : (m.link.link_handshake_nonce ≡ none) ⊎ (m.link.link_handshake_nonce ≡ some n)
    pub key :
        m.link.phase ≡ Link.Phase.synchronized
        → is_empty cfg.serial_shared_secret ≡ false
        → m.link.link_session_key ≡ some (calculate_session_key kdf cfg.serial_shared_secret n)

  module _ (clock : Clock) (seq_id : ℕ) where
    abbrev after : Option LinkSync → Manager → Manager
    after payload m = (handle_link_sync_resp kdf cfg clock seq_id payload m).0

    -- The three outcomes of an answer.
    data Outcome (m m' : Manager) : Type 0 where
      established :
          (p : LinkSync)
          → m.link.link_handshake_nonce ≡ some p.nonce
          → IsEstablished cfg clock kdf p.nonce m m'
          → Outcome m m'
      untouched : IsUntouched m m' → Outcome m m'
      torn_down : IsTornDown m m' → Outcome m m'

    refused→Outcome : {m m' : Manager} → IsUntouched m m' ⊎ IsTornDown m m' → Outcome m m'
    refused→Outcome (inl u) = untouched u
    refused→Outcome (inr t) = torn_down t

    accepted→Outcome :
        (payload : Option LinkSync) (m : Manager)
        → (handle_link_sync_resp kdf cfg clock seq_id payload m).1 ≡ true
        → Outcome m (after payload m)
    accepted→Outcome none m h = absurd (no ((accepted_iff kdf cfg clock seq_id none m).0 h))
      where
        no :
            (packet : LinkSync) × (◌≡◌ {A = Option LinkSync} none (some packet))
              × IsGenuine kdf cfg clock seq_id packet m
            → ⊥
        no (packet, e, g) = cc
    accepted→Outcome (some packet) m h =
        established packet (pending ((accepted_iff kdf cfg clock seq_id (some packet) m).0 h))
          (accepted_establishes kdf cfg clock seq_id packet m h)
      where
        pending :
            (p : LinkSync) × (some packet ≡ some p) × IsGenuine kdf cfg clock seq_id p m
            → m.link.link_handshake_nonce ≡ some packet.nonce
        pending (p, e, g) = ground (arith, e, g.pending)

    answer_outcome : (payload : Option LinkSync) (m : Manager) → Outcome m (after payload m)
    answer_outcome payload m =
        elim (Bool-cases (handle_link_sync_resp kdf cfg clock seq_id payload m).1) [
          | inl yes' ↦ accepted→Outcome payload m yes'
          | inr no' ↦ refused→Outcome (refused_outcome kdf cfg clock seq_id payload m no')
        ]

    Outcome-IsCoupled : {m m' : Manager} → Outcome m m' → IsCoupled m → IsCoupled m'
    Outcome-IsCoupled (established p e s) c = ground arith
    Outcome-IsCoupled (untouched u) c = ground arith
    Outcome-IsCoupled (torn_down t) c = ground arith

    Outcome-IsBound : (n : Bytes) {m m' : Manager} → Outcome m m' → IsBound n m → IsBound n m'
    Outcome-IsBound n (established p e s) c = ground arith
    Outcome-IsBound n (untouched u) c = ground arith
    Outcome-IsBound n (torn_down t) c = ground arith

    -- An answer, whatever it holds, keeps the machine and the link coupled: the link is synchronised
    -- only if the machine is and the event is set, and no success is counted without an attempt.
    pub answer-IsCoupled :
        (payload : Option LinkSync) (m : Manager) → IsCoupled m → IsCoupled (after payload m)
    answer-IsCoupled payload m c = Outcome-IsCoupled (answer_outcome payload m) c

    pub answer-IsBound :
        (n : Bytes) (payload : Option LinkSync) (m : Manager)
        → IsBound n m
        → IsBound n (after payload m)
    answer-IsBound n payload m b = Outcome-IsBound n (answer_outcome payload m) b

    Outcome_attempts :
        {m m' : Manager} → Outcome m m' → m'.link.handshake_attempts ≡ m.link.handshake_attempts
    Outcome_attempts (established p e s) = s.attempts
    Outcome_attempts (untouched u) = u.keeps.attempts
    Outcome_attempts (torn_down t) = t.attempts

    answer_attempts :
        (payload : Option LinkSync) (m : Manager)
        → (after payload m).link.handshake_attempts ≡ m.link.handshake_attempts
    answer_attempts payload m = Outcome_attempts (answer_outcome payload m)

  -- Answers count no attempts.
  pub deliver_attempts :
      (as' : List Answer) (m : Manager)
      → (deliver kdf cfg as' m).link.handshake_attempts ≡ m.link.handshake_attempts
  unfolding deliver
  deliver_attempts [] m = refl
  deliver_attempts (a ∷ as') m =
      deliver_attempts as' (handle_link_sync_resp kdf cfg a.clock a.seq_id a.payload m).0
      ∙ answer_attempts a.clock a.seq_id a.payload m

  pub deliver-IsCoupled :
      (as' : List Answer) (m : Manager) → IsCoupled m → IsCoupled (deliver kdf cfg as' m)
  unfolding deliver
  deliver-IsCoupled [] m c = c
  deliver-IsCoupled (a ∷ as') m c =
      deliver-IsCoupled as' (handle_link_sync_resp kdf cfg a.clock a.seq_id a.payload m).0
        (answer-IsCoupled a.clock a.seq_id a.payload m c)

  pub deliver-IsBound :
      (n : Bytes) (as' : List Answer) (m : Manager)
      → IsBound n m
      → IsBound n (deliver kdf cfg as' m)
  unfolding deliver
  deliver-IsBound n [] m c = c
  deliver-IsBound n (a ∷ as') m c =
      deliver-IsBound n as' (handle_link_sync_resp kdf cfg a.clock a.seq_id a.payload m).0
        (answer-IsBound a.clock a.seq_id n a.payload m c)
