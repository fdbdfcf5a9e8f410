-- ===== src/Service/Frames/Gate.antt =====
-- What frames of the MCU can do before the link is synchronised, and which are acknowledged.
use arduino_yun_bridge.Base.{
  ℕ, ◌≡◌, refl, ◌∙◌, inl, inr, true, false, ◌||◌, Option, none, some, List, [], ◌∷◌, ◌==◌, arith,
  any, Bool-cases,
}
use mathlib.Core.Path.{subst}
use arduino_yun_bridge.Base.Assoc.{lookup, nat_key}
use arduino_yun_bridge.Protocol.Command
use arduino_yun_bridge.Protocol.Status.{Status}
use arduino_yun_bridge.Protocol.Status
use arduino_yun_bridge.Service.Frames.{
  Handler, on_mcu_ack, handle_mcu_status, handle_link_sync_resp, handle_link_reset_resp,
  mcu_registry, is_status, is_pre_sync_allowed, Payload, Result, McuHandlers, handle_mcu_frame,
  run_handler, read_payload, acknowledge_unless_status,
}

-- The handlers of the statuses, and of the answers of the handshake.
pub data IsEarly : Handler → Type 0 where
  status_early : (s : Status) → IsEarly (handle_mcu_status s)
  ack_early : IsEarly on_mcu_ack
  sync_early : IsEarly handle_link_sync_resp
  reset_early : IsEarly handle_link_reset_resp

-- The id of a command has a handler of these.
abbrev pub IsEarlyId : ℕ → Type 0
IsEarlyId command_id = (x : Handler) × (lookup command_id mcu_registry ≡ some x) × IsEarly x

status_found :
    (command_id : ℕ) (ss : List Status)
    → any (λ s. Status.value s == command_id) ss ≡ true
    → (s : Status) × (Status.value s ≡ command_id)
status_found command_id [] h = absurd (ground arith)
status_found command_id (s ∷ ss) h = elim (Bool-cases (Status.value s == command_id)) [
  | inl is ↦ (s, ground (arith, is))
  | inr other ↦ status_found command_id ss (ground (arith, h, other))
]

status_registered : (s : Status) → IsEarlyId (Status.value s)
unfolding lookup mcu_registry
status_registered Status.ok = (handle_mcu_status Status.ok, refl, status_early Status.ok)
status_registered Status.error = (handle_mcu_status Status.error, refl, status_early Status.error)
status_registered Status.cmd_unknown =
    (handle_mcu_status Status.cmd_unknown, refl, status_early Status.cmd_unknown)
status_registered Status.malformed =
    (handle_mcu_status Status.malformed, refl, status_early Status.malformed)
status_registered Status.overflow =
    (handle_mcu_status Status.overflow, refl, status_early Status.overflow)
status_registered Status.crc_mismatch =
    (handle_mcu_status Status.crc_mismatch, refl, status_early Status.crc_mismatch)
status_registered Status.timeout =
    (handle_mcu_status Status.timeout, refl, status_early Status.timeout)
status_registered Status.not_implemented =
    (handle_mcu_status Status.not_implemented, refl, status_early Status.not_implemented)
status_registered Status.ack = (on_mcu_ack, refl, ack_early)

status-IsEarlyId : (command_id : ℕ) → is_status command_id ≡ true → IsEarlyId command_id
unfolding is_status
status-IsEarlyId command_id h =
    let (s, e) = status_found command_id Status.all h in
    subst (λ n. IsEarlyId n) e (status_registered s)

sync_registered : IsEarlyId Command.link_sync_resp
unfolding lookup mcu_registry
sync_registered = (handle_link_sync_resp, refl, sync_early)

reset_registered : IsEarlyId Command.link_reset_resp
unfolding lookup mcu_registry
reset_registered = (handle_link_reset_resp, refl, reset_early)

allowed-IsEarlyId : (command_id : ℕ) → is_pre_sync_allowed command_id ≡ true → IsEarlyId command_id
unfolding is_pre_sync_allowed
allowed-IsEarlyId command_id h = elim (Bool-cases (command_id == Command.link_sync_resp)) [
  | inl is ↦
      let e : Command.link_sync_resp ≡ command_id = ground (arith, is) in
      subst (λ n. IsEarlyId n) e sync_registered
  | inr other ↦
      let e : Command.link_reset_resp ≡ command_id = ground (arith, h, other) in
      subst (λ n. IsEarlyId n) e reset_registered
]

pub early :
    (command_id : ℕ)
    → (is_status command_id || is_pre_sync_allowed command_id) ≡ true
    → IsEarlyId command_id
early command_id h = elim (Bool-cases (is_status command_id)) [
  | inl is ↦ status-IsEarlyId command_id is
  | inr other ↦ allowed-IsEarlyId command_id (ground (arith, h, other))
]

module _ {S M : Type 0} (h : McuHandlers S M) (P : S → Type 0) where
  -- The early handlers keep a property of the state, and so do acknowledgements.
  pub record IsKept : Type 0 where
    pub run-early :
        (x : Handler) (seq : ℕ) (p : Payload M) (s : S) → IsEarly x → P s → P (h.run x seq p s).0
    pub acknowledge-early : (command_id seq : ℕ) (s : S) → P s → P (h.acknowledge command_id seq s)

  module _ (kept : IsKept) where
    acknowledge_keeps :
        (command_id seq : ℕ) (r : S × Result)
        → P r.0
        → P (acknowledge_unless_status h command_id seq r).0
    acknowledge_keeps command_id seq (s, Result.returned_false) k = k
    acknowledge_keeps command_id seq (s, Result.raised) k = k
    acknowledge_keeps command_id seq (s, Result.blocked) k = k
    acknowledge_keeps command_id seq (s, Result.returned) k =
        elim (Bool-cases (is_status command_id)) [
          | inl is ↦ rw is k
          | inr other ↦ rw other (kept.acknowledge-early command_id seq s k)
        ]

    handler_keeps :
        (x : Handler) (command_id seq : ℕ) (p : Option (Payload M)) (s : S)
        → IsEarly x
        → P s
        → P (run_handler h x command_id seq p s).0
    handler_keeps x command_id seq none s i k = k
    handler_keeps x command_id seq (some p) s i k =
        acknowledge_keeps command_id seq (h.run x seq p s) (kept.run-early x seq p s i k)

    -- While the link is not synchronised, a frame keeps every property that the handlers of statuses,
    -- those of the two answers of the handshake, and the acknowledgements keep: no other handler is
    -- reached.
    pub handle_mcu_frame-keeps :
        (command_id seq : ℕ) (p : Payload M) (s : S)
        → h.is_synchronized s ≡ false
        → P s
        → P (handle_mcu_frame h command_id seq p s).0
    unfolding handle_mcu_frame
    handle_mcu_frame-keeps command_id seq p s off k =
        elim (Bool-cases (is_status command_id || is_pre_sync_allowed command_id)) [
          | inl open' ↦
              let (x, registered, i) = early command_id open' in
              rw (off, open', registered)
                (handler_keeps x command_id seq (read_payload h command_id p) s i k)
          | inr shut ↦ rw (off, shut) k
        ]

module _ {S M V : Type 0} (h : McuHandlers S M) (view : S → V) where
  -- The early handlers leave a part of the state as it is, and so do acknowledgements.
  pub record IsBlind : Type 0 where
    pub run-early :
        (x : Handler) (seq : ℕ) (p : Payload M) (s : S)
        → IsEarly x
        → view (h.run x seq p s).0 ≡ view s
    pub acknowledge-early :
        (command_id seq : ℕ) (s : S) → view (h.acknowledge command_id seq s) ≡ view s

  -- While the link is not synchronised, a frame leaves every part of the state as it is that these
  -- leave as it is.
  pub handle_mcu_frame-gated :
      IsBlind
      → (command_id seq : ℕ) (p : Payload M) (s : S) → h.is_synchronized s ≡ false
      → view (handle_mcu_frame h command_id seq p s).0 ≡ view s
  handle_mcu_frame-gated blind command_id seq p s off =
      handle_mcu_frame-keeps h (λ s'. view s' ≡ view s)
        (record {
          run-early = λ x seq' p' s' i k. blind.run-early x seq' p' s' i ∙ k;
          acknowledge-early = λ command seq' s' k. blind.acknowledge-early command seq' s' ∙ k;
        })
        command_id seq p s off refl
