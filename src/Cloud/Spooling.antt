-- ===== src/Cloud/Spooling.antt =====
-- What the spool keeps, in `_spool_cloud_message_locked`: the newest messages, the oldest ones are counted as dropped.
use mathlib.Core.List.{map-append}
use arduino_yun_bridge.Base.{
  length-append, sym, lt→ltb, ltb, false, Bytes, [], leb, Bool-cases, ◌∷◌, ◌+◌, arith, length, map,
  ◌++◌, ◌≤◌, suc, true, some, ◌≡◌, List, ℕ, ap, ◌∙◌,
}
use arduino_yun_bridge.Base.{if◌then◌else◌, zero, suc, inl, inr, refl, Bool-cases}
use arduino_yun_bridge.Storage.{append, popleft}
use arduino_yun_bridge.Cloud.Flush.{others, IsQueued}
use arduino_yun_bridge.Cloud.{
  make_room, returns, append, Deque, spool_cloud_message, popleft, works, Database, Cloud, Codec,
  Publish, trim_loop,
}

-- The file has room for as many messages as the configuration says.
pub record IsLimited (cl : Cloud) : Type 0 where
  pub limit : cl.spool.maxlen ≡ some cl.cloud_queue_limit
  pub positive : 1 ≤ cl.cloud_queue_limit

module _ (c : Codec) where
  -- The spool with these messages, and so many more of them dropped.
  abbrev pub spool_of : List Publish → ℕ → Cloud → Cloud
  spool_of messages dropped cl = record cl {
    spool = record cl.spool {
      in_file = true;
      rows = map c.encode messages;
      count = length messages;
    };
    cloud_spool_dropped_limit = cl.cloud_spool_dropped_limit + dropped;
  }

  -- The oldest messages are dropped and counted, until there is room.
  pub record IsTrimmed (messages : List Publish) (dropped : ℕ) (cl after : Cloud) : Type 0 where
    pub lost : List Publish
    pub kept : List Publish
    pub parts : messages ≡ lost ++ kept
    pub room : suc (length kept) ≤ cl.cloud_queue_limit
    pub shape : after ≡ spool_of kept (dropped + length lost) cl

  queued_shape :
      (messages : List Publish) (cl : Cloud) → IsQueued c messages cl → cl ≡ spool_of messages 0 cl
  queued_shape messages cl q = ground (arith, q.file, q.rows, q.counted)

  more :
      (messages : List Publish) (n k : ℕ) (cl : Cloud)
      → n ≡ k
      → spool_of messages n cl ≡ spool_of messages k cl
  more messages n k cl e = ap (λ d. spool_of messages d cl) e

  abbrev working : ℕ → Database
  working n = works

  trim_step :
      (left dropped : ℕ) (m : Publish) (ms : List Publish) (cl : Cloud)
      → cl.cloud_queue_limit ≤ suc (length ms)
      → trim_loop c (suc left) working (spool_of (m ∷ ms) dropped cl)
        ≡ trim_loop c left working (spool_of ms (dropped + 1) cl)
  unfolding trim_loop
  trim_step left dropped m ms cl full = unfold popleft in ground arith

  trim_stop :
      (left dropped : ℕ) (ms : List Publish) (cl : Cloud)
      → suc (length ms) ≤ cl.cloud_queue_limit
      → trim_loop c left working (spool_of ms dropped cl) ≡ spool_of ms dropped cl
  unfolding trim_loop
  trim_stop zero dropped ms cl room = refl
  trim_stop (suc left) dropped ms cl room = ground arith

  pub trim_lem :
      (messages : List Publish) (dropped : ℕ) (cl : Cloud)
      → 1 ≤ cl.cloud_queue_limit
      → IsTrimmed messages dropped cl
          (trim_loop c (length messages) working (spool_of messages dropped cl))
  trim_lem [] dropped cl positive = record {
    lost = [];
    kept = [];
    parts = refl;
    room = positive;
    shape = trim_stop 0 dropped [] cl positive ∙ more [] dropped (dropped + 0) cl (omega arith);
  }
  trim_lem (m ∷ ms) dropped cl positive =
      elim (Bool-cases (leb cl.cloud_queue_limit (suc (length ms)))) [
        | inl full ↦
            let t = trim_lem ms (dropped + 1) cl positive in
            rw (trim_step (length ms) dropped m ms cl (ground arith)) (record {
              lost = m ∷ t.lost;
              kept = t.kept;
              parts = ap (λ r. m ∷ r) t.parts;
              room = t.room;
              shape =
                  t.shape
                  ∙ more t.kept (dropped + 1 + length t.lost) (dropped + suc (length t.lost)) cl
                      (omega arith);
            })
        | inr room ↦ record {
          lost = [];
          kept = m ∷ ms;
          parts = refl;
          room = ground arith;
          shape =
              trim_stop (suc (length ms)) dropped (m ∷ ms) cl (ground arith)
              ∙ more (m ∷ ms) dropped (dropped + 0) cl (omega arith);
        }
      ]

  append_fits :
      (item : Bytes) (d : Deque) (n : ℕ)
      → d.in_file ≡ true
      → d.maxlen ≡ some n
      → suc d.count ≤ n
      → append works item d
        ≡ (record d { rows = d.rows ++ (item ∷ []); count = d.count + 1 }, returns item)
  append_fits item d n file limit fits = unfold append in ground arith

  -- The message is the newest in the spool, the dropped ones were the oldest.
  pub record IsSpooled (m : Publish) (messages : List Publish) (before after : Cloud) : Type 0 where
    pub lost : List Publish
    pub kept : List Publish
    pub parts : messages ≡ lost ++ kept
    pub room : suc (length kept) ≤ before.cloud_queue_limit
    pub queued : IsQueued c (kept ++ (m ∷ [])) after
    pub counted : after.cloud_spool_dropped_limit ≡ before.cloud_spool_dropped_limit + length lost
    pub rest : others after ≡ others before
    pub unsent : after.sent ≡ before.sent

  abbrev trimmed_count : Cloud → ℕ
  trimmed_count cl =
      if ltb 0 cl.cloud_spool_dropped_limit
      then cl.cloud_spool_trim_events + 1
      else cl.cloud_spool_trim_events

  -- The cloud after the message was put into a spool with room for it.
  abbrev kept_with : Publish → List Publish → ℕ → Cloud → Cloud
  kept_with m kept dropped cl = record cl {
    spool = record cl.spool {
      in_file = true;
      rows = map c.encode kept ++ (c.encode m ∷ []);
      count = length kept + 1;
    };
    cloud_spool_dropped_limit = cl.cloud_spool_dropped_limit + dropped;
    cloud_spool_trim_events = trimmed_count (spool_of kept dropped cl);
    cloud_spool_degraded = false;
    cloud_spool_pending_messages = length kept + 1;
  }

  room_shape :
      (messages : List Publish) (cl : Cloud)
      → IsLimited cl
      → (t : IsTrimmed messages 0 cl
          (trim_loop c (length messages) working (spool_of messages 0 cl)))
      → make_room c working (spool_of messages 0 cl) ≡ record (spool_of t.kept (length t.lost) cl) {
        cloud_spool_trim_events = trimmed_count (spool_of t.kept (length t.lost) cl);
      }
  room_shape messages cl l t =
      let positive = lt→ltb 0 cl.cloud_queue_limit l.positive in
      rw (positive, t.shape) (ground arith)

  spooled_shape :
      (m : Publish) (messages : List Publish) (cl : Cloud)
      → IsLimited cl
      → (t : IsTrimmed messages 0 cl
          (trim_loop c (length messages) working (spool_of messages 0 cl)))
      → spool_cloud_message c working works m (spool_of messages 0 cl)
        ≡ (kept_with m t.kept (length t.lost) cl, true)
  spooled_shape m messages cl l t =
      let kept = spool_of t.kept (length t.lost) cl in
      let fits = append_fits (c.encode m) kept.spool cl.cloud_queue_limit refl l.limit t.room in
      unfold spool_cloud_message in rw (room_shape messages cl l t, fits) refl

  -- While the database works, a message is put into a spool that holds coded messages and has a limit:
  -- it is the newest, the oldest ones are dropped, as many as there must be, and counted.
  pub spool_lem :
      (m : Publish) (messages : List Publish) (cl : Cloud)
      → IsLimited cl
      → IsQueued c messages cl
      → IsSpooled m messages cl (spool_cloud_message c working works m cl).0
        × ((spool_cloud_message c working works m cl).1 ≡ true)
  spool_lem m messages cl l q =
      let same = queued_shape messages cl q in
      let t = trim_lem messages 0 cl l.positive in
      let whole =
        ap (spool_cloud_message c working works m) same ∙ spooled_shape m messages cl l t in
      rw whole (
        record {
          lost = t.lost;
          kept = t.kept;
          parts = t.parts;
          room = t.room;
          queued = record {
            file = refl;
            rows = sym (map-append c.encode t.kept (m ∷ []));
            counted = sym (length-append t.kept (m ∷ []));
          };
          counted = refl;
          rest = refl;
          unsent = refl;
        },
        refl,
      )
