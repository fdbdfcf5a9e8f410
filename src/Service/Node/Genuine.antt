-- ===== src/Service/Node/Genuine.antt =====
-- Which frames synchronise the link.
use arduino_yun_bridge.Base.{
  ℕ, ◌≡◌, ◌⊎◌, refl, sym, ap, ◌∙◌, inl, inr, true, false, Option, none, some, arith, Bool-cases,
  ◌||◌,
}
use mathlib.Core.Path.{subst}
use arduino_yun_bridge.Base.Assoc.{lookup, nat_key}
use arduino_yun_bridge.Link.{is_synchronized}
use arduino_yun_bridge.Handshake.{Kdf, Config, Clock, Manager, LinkSync}
use arduino_yun_bridge.Handshake.Response
use arduino_yun_bridge.Handshake.Authentic.{
  IsGenuine, IsUntouched, IsTornDown, accepted_iff, refused_outcome,
}
use arduino_yun_bridge.Service.Files.{FileSystem}
use arduino_yun_bridge.Service.Requests.{Codecs, Surroundings}
use arduino_yun_bridge.Service.Frames
use arduino_yun_bridge.Service.Frames.{
  mcu_registry, Handler, handle_mcu_frame, read_payload, acknowledge_unless_status, run_handler,
  is_status, is_pre_sync_allowed,
}
use arduino_yun_bridge.Service.Frames.Gate.{
  IsEarly, status_early, ack_early, sync_early, reset_early, early,
}
use arduino_yun_bridge.Service.Node.{
  Message, link_sync, FrameParsers, Node, run, run_parsed, node_handlers,
}

module _ (kdf : Kdf) (cfg : Config) (clock : Clock) where
  torn_down_off :
      (m m' : Manager)
      → is_synchronized m.link ≡ false
      → IsUntouched m m' ⊎ IsTornDown m m'
      → is_synchronized m'.link ≡ false
  torn_down_off m m' off (inl u) = unfold is_synchronized in ground arith
  torn_down_off m m' off (inr t) = unfold is_synchronized in ground arith

  answer-IsGenuine :
      (seq : ℕ) (packet : LinkSync) (m : Manager)
      → is_synchronized m.link ≡ false
      → is_synchronized (Response.handle_link_sync_resp kdf cfg clock seq (some packet) m).0.link
        ≡ true
      → IsGenuine kdf cfg clock seq packet m
  answer-IsGenuine seq packet m off on =
      elim (Bool-cases (Response.handle_link_sync_resp kdf cfg clock seq (some packet) m).1) [
        | inl accepted ↦
            let (packet', e, g) = (accepted_iff kdf cfg clock seq (some packet) m).0 accepted in
            let same : packet' ≡ packet = ground (arith, e) in
            subst (λ q. IsGenuine kdf cfg clock seq q m) same g
        | inr refused ↦
            let still =
              torn_down_off m _ off (refused_outcome kdf cfg clock seq (some packet) m refused) in
            absurd (ground (arith, still, on))
      ]

module _ (fs : FileSystem) (c : Codecs) (kdf : Kdf) (cfg : Config) (clock : Clock)
    (ps : FrameParsers) (w : Surroundings) where
  -- The payload is a packet that answers the pending challenge with the right tag.
  abbrev pub IsAnswer : ℕ → Option (Frames.Payload Message) → Node fs c → Type 0
  IsAnswer seq p n =
      (packet : LinkSync) × (p ≡ some (Frames.parsed (link_sync packet)))
      × IsGenuine kdf cfg clock seq packet n.manager

  abbrev IsOn : Node fs c → Type 0
  IsOn n = is_synchronized n.manager.link ≡ true

  parsed_answers :
      (seq : ℕ) (m : Message) (n : Node fs c)
      → is_synchronized n.manager.link ≡ false
      → IsOn (run_parsed fs c kdf cfg clock ps w Handler.handle_link_sync_resp seq m n).0
      → IsAnswer seq (some (Frames.parsed m)) n
  unfolding run_parsed
  parsed_answers seq (link_sync packet) n off on =
      (packet, refl, answer-IsGenuine kdf cfg clock seq packet n.manager off on)
  parsed_answers seq m n off on = absurd (ground (arith, off, on))

  early_answers :
      (x : Handler) (seq : ℕ) (p : Frames.Payload Message) (n : Node fs c)
      → IsEarly x
      → is_synchronized n.manager.link ≡ false
      → IsOn (run fs c kdf cfg clock ps w x seq p n).0
      → IsAnswer seq (some p) n
  unfolding run
  early_answers x seq p n (status_early s) off on = absurd (ground (arith, off, on))
  early_answers x seq p n ack_early off on = absurd (ground (arith, off, on))
  early_answers x seq p n reset_early off on = absurd (ground (arith, off, on))
  early_answers x seq (Frames.raw bytes) n sync_early off on = absurd (ground (arith, off, on))
  early_answers x seq (Frames.parsed m) n sync_early off on = parsed_answers seq m n off on

  acknowledge_same :
      (command_id seq : ℕ) (r : Node fs c × Frames.Result)
      → (acknowledge_unless_status
          (node_handlers fs c kdf cfg clock ps w)
          command_id
          seq
          r).0.manager
        ≡ r.0.manager
  unfolding node_handlers
  acknowledge_same command_id seq (n, Frames.returned_false) = refl
  acknowledge_same command_id seq (n, Frames.raised) = refl
  acknowledge_same command_id seq (n, Frames.blocked) = refl
  acknowledge_same command_id seq (n, Frames.returned) = ground arith

  handler_answers :
      (x : Handler) (command_id seq : ℕ) (p : Option (Frames.Payload Message)) (n : Node fs c)
      → IsEarly x
      → is_synchronized n.manager.link ≡ false
      → IsOn (run_handler (node_handlers fs c kdf cfg clock ps w) x command_id seq p n).0
      → IsAnswer seq p n
  unfolding node_handlers
  handler_answers x command_id seq none n i off on = absurd (ground (arith, off, on))
  handler_answers x command_id seq (some p) n i off on = early_answers x seq p n i off (
      sym (
        ap (λ m. is_synchronized m.link)
          (acknowledge_same command_id seq (run fs c kdf cfg clock ps w x seq p n)))
      ∙ on)

  -- If a frame of the MCU makes a link synchronised that was not, its payload is a packet that answers
  -- the pending challenge, outside the rate limit, with the tag that the secret gives for its nonce.
  pub frame_synchronizes :
      (command_id seq : ℕ) (p : Frames.Payload Message) (n : Node fs c)
      → is_synchronized n.manager.link ≡ false
      → is_synchronized
          (handle_mcu_frame
            (node_handlers fs c kdf cfg clock ps w)
            command_id
            seq
            p
            n).0.manager.link
        ≡ true
      → IsAnswer seq (read_payload (node_handlers fs c kdf cfg clock ps w) command_id p) n
  unfolding handle_mcu_frame node_handlers
  frame_synchronizes command_id seq p n off on =
      elim (Bool-cases (is_status command_id || is_pre_sync_allowed command_id)) [
        | inl open' ↦
            let (x, registered, i) = early command_id open' in
            handler_answers x command_id seq
              (read_payload (node_handlers fs c kdf cfg clock ps w) command_id p) n i off
              (sym (reached command_id seq p n x off open' registered) ∙ on)
        | inr shut ↦ absurd (ground (arith, off, shut, on))
      ]
    where
      reached :
          (command_id seq : ℕ) (p : Frames.Payload Message) (n : Node fs c) (x : Handler)
          → is_synchronized n.manager.link ≡ false
          → (is_status command_id || is_pre_sync_allowed command_id) ≡ true
          → lookup command_id mcu_registry ≡ some x
          → is_synchronized
              (handle_mcu_frame
                (node_handlers fs c kdf cfg clock ps w)
                command_id
                seq
                p
                n).0.manager.link
            ≡ is_synchronized
                (run_handler
                  (node_handlers fs c kdf cfg clock ps w)
                  x
                  command_id
                  seq
                  (read_payload (node_handlers fs c kdf cfg clock ps w) command_id p)
                  n).0.manager.link
      reached command_id seq p n x off open' registered = rw (off, open', registered)
