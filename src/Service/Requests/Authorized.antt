-- ===== src/Service/Requests/Authorized.antt =====
-- Which requests are checked against the authorization, and what an unauthorized one does.
use arduino_yun_bridge.Base.{
  ℕ, ◌≡◌, ◌⊎◌, ◌↔◌, inl, inr, Option-cases, refl, Bool, true, false, Option, none, some, List, [],
  ◌∷◌, arith, if◌then◌else◌, Text, codes, text_eq_iff, All, is_empty,
}
use arduino_yun_bridge.Base.Assoc.{lookup}
use arduino_yun_bridge.Topics.{split, segments_of, behind, nonempty, TopicRoute, parse_topic}
use arduino_yun_bridge.Service.Access.{topic_auth_mapping, deduce_action}
use arduino_yun_bridge.Service.Pins.{
  parse_pin, isdigit, int_of, pin_write, handle_pin, pin_request, Request,
}
use arduino_yun_bridge.Protocol.Command
use arduino_yun_bridge.Service.Board.{send, enter_bootloader, bootloader_magic, handle_system}
use arduino_yun_bridge.Service.Files.{FileSystem}
use arduino_yun_bridge.Service.Requests.{
  Codecs, Surroundings, Service, authorized, reject_cloud, waits_for_link, dispatch, handle_request,
}

abbrev Nonempty : Text → Type 0
Nonempty t = is_empty t ≡ false

nonempty-All : (ts : List Text) → All Nonempty (nonempty ts)
nonempty-All [] = tt
nonempty-All ([] ∷ ts) = nonempty-All ts
nonempty-All ((c ∷ cs) ∷ ts) = (refl, nonempty-All ts)

behind-All :
    (ps segs rest : List Text) → All Nonempty segs → behind ps segs ≡ some rest → All Nonempty rest
unfolding behind
behind-All [] segs rest all e = let same : rest ≡ segs = ground arith in rw same all
behind-All (p ∷ ps) [] rest all e = absurd (ground arith)
behind-All (p ∷ ps) (s ∷ segs) rest (first, all) e = behind-All ps segs rest all (ground arith)

-- The segments of a parsed topic are not empty.
pub segments-All :
    (prefix topic_name : Text) (r : TopicRoute)
    → parse_topic prefix topic_name ≡ some r
    → All Nonempty r.segments
unfolding parse_topic
segments-All prefix topic_name r e =
    found (behind (segments_of prefix) (segments_of topic_name)) refl
  where
    found :
        (o : Option (List Text))
        → behind (segments_of prefix) (segments_of topic_name) ≡ o
        → All Nonempty r.segments
    found none b = absurd (ground arith)
    found (some []) b = absurd (ground arith)
    found (some (name ∷ segs)) b =
        let all =
          behind-All (segments_of prefix) (segments_of topic_name) (name ∷ segs)
            (nonempty-All ((split topic_name).0 ∷ (split topic_name).1)) b in
        let same : r.segments ≡ segs = ground (arith, e, b) in rw same (all.1)

-- Of the topics that can be parsed, only those of the system and those without a segment have no
-- action, so that their requests are not checked.
pub deduce_action_iff :
    (prefix topic_name : Text) (r : TopicRoute)
    → parse_topic prefix topic_name ≡ some r
    → (deduce_action r ≡ none) ↔ ((r.topic ≡ codes "system") ⊎ (r.segments ≡ []))
unfolding deduce_action
deduce_action_iff prefix topic_name r e = cases r.segments (segments-All prefix topic_name r e)
  where
    cases :
        (segs : List Text)
        → All Nonempty segs
        → ((deduce_action (record r { segments = segs })) ≡ none)
          ↔ ((r.topic ≡ codes "system") ⊎ (segs ≡ []))
    cases [] all = ground (arith, text_eq_iff r.topic (codes "system"))
    cases ([] ∷ rest) (first, all) = absurd (ground arith)
    cases ((d ∷ ds) ∷ []) all = ground (arith, text_eq_iff r.topic (codes "system"))
    cases ((d ∷ ds) ∷ act ∷ rest) all = ground (arith, text_eq_iff r.topic (codes "system"))

module _ (fs : FileSystem) (c : Codecs) (wait : Service fs c → Service fs c) (w : Surroundings)
    (q : Request) where
  -- What the service is when the wait for the link is over.
  abbrev pub waited : TopicRoute → Service fs c → Service fs c
  waited r s = if waits_for_link r.topic then wait s else s

  refused_lem :
      (r : TopicRoute) (act : Text) (s : Service fs c)
      → parse_topic s.cloud_topic_prefix q.topic ≡ some r
      → deduce_action r ≡ some act
      → authorized (waited r s).topic_authorization r.topic act ≡ false
      → handle_request fs c wait w q s ≡ reject_cloud fs c q r.topic act (waited r s)
  unfolding handle_request
  refused_lem r act s parsed deduced refused = rw (parsed, deduced, refused)

  -- A request whose topic can be parsed, while the authorization that is in force after the wait for the
  -- link allows no action on that topic: it has no other effect than the report that it is rejected, unless
  -- the topic is the system's, or has no segment.
  pub handle_request-denied :
      (r : TopicRoute) (s : Service fs c)
      → parse_topic s.cloud_topic_prefix q.topic ≡ some r
      → ((act : Text) → authorized (waited r s).topic_authorization r.topic act ≡ false)
      → ((act : Text) × (handle_request fs c wait w q s
            ≡ reject_cloud fs c q r.topic act (waited r s)))
        ⊎ ((r.topic ≡ codes "system") ⊎ (r.segments ≡ []))
  handle_request-denied r s parsed denied = elim (Option-cases (deduce_action r)) [
    | inl open' ↦ inr ((deduce_action_iff s.cloud_topic_prefix q.topic r parsed).0 open')
    | inr (act, deduced) ↦ inl (act, refused_lem r act s parsed deduced (denied act))
  ]

module _ (fs : FileSystem) (c : Codecs) (w : Surroundings) (q : Request) where
  -- A request whose topic is the system's with the first segment "bootloader" sends the MCU the packet to
  -- enter its bootloader, whatever the authorization.
  pub handle_request-bootloader :
      (r : TopicRoute) (s : Service fs c) (rest : List Text)
      → parse_topic s.cloud_topic_prefix q.topic ≡ some r
      → r.topic ≡ codes "system"
      → r.segments ≡ codes "bootloader" ∷ rest
      → (handle_request fs c (λ t. t) w q s).board
        ≡ send (enter_bootloader bootloader_magic) s.board
  unfolding handle_request deduce_action dispatch handle_system
  handle_request-bootloader r s rest parsed is segs = rw (parsed, is, segs)

  -- A request on a pin's topic with three segments or more, the second of them "read", writes to the pin
  -- when the authorization allows reading it: the value is the payload's number, or 0.
  pub handle_request-read_writes :
      (auth : Text → Bool) (pin x : Text) (n : ℕ) (text : Text) (rest : List Text) (r : TopicRoute)
      (s : Service fs c)
      → parse_topic s.cloud_topic_prefix q.topic ≡ some r
      → s.topic_authorization ≡ some auth
      → auth (codes "digital_read") ≡ true
      → r.topic ≡ codes "d"
      → r.segments ≡ pin ∷ codes "read" ∷ x ∷ rest
      → parse_pin pin ≡ some n
      → c.decode q.payload ≡ some text
      → (handle_request fs c (λ t. t) w q s).pins.packets
        ≡ pin_write Command.digital_write n (if isdigit text then int_of text else 0)
          ∷ s.pins.packets
  unfolding handle_request deduce_action dispatch handle_pin pin_request lookup topic_auth_mapping
  handle_request-read_writes auth pin x n text rest r s parsed auths allowed is segs pinned
        decoded =
      rw (parsed, is, segs, auths, allowed, pinned, decoded)
