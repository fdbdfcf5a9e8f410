-- ===== src/Cloud/Flush.antt =====
-- The flush of the spool loses no message and doubles none.
use arduino_yun_bridge.Base.{
  Option, Bool, ◌==◌, ◌∙◌, ap, sym, suc, ℕ, ◌⊎◌, ◌-◌, ◌≡◌, refl, true, false, List, [], ◌∷◌, ◌++◌,
  map, arith, length, Bool-cases, inl, inr,
}
use mathlib.Core.List.{append-nil, append_assoc}
use arduino_yun_bridge.Storage.{works, popleft, peek}
use arduino_yun_bridge.Cloud.{
  settle, flush_cloud_spool, flush_loop, Publish, Codec, IsCodec, Cloud, Turn, again, stop,
  publish_cloud_message, flush_turn,
}

-- What neither the flush nor the spool touches.
abbrev pub others : Cloud → Bool × ℕ × Option ℕ × List (Option Publish) × ℕ
others cl =
    (cl.connected, cl.cloud_queue_limit, cl.spool.maxlen, cl.ipc_queues, cl.cloud_dropped_messages)

module _ (c : Codec) where
  -- The spool holds the coded messages, and nothing else.
  pub record IsQueued (messages : List Publish) (cl : Cloud) : Type 0 where
    pub file : cl.spool.in_file ≡ true
    pub rows : cl.spool.rows ≡ map c.encode messages
    pub counted : cl.spool.count ≡ length messages

  -- Some of the messages, from the first on, went out; the others are still queued.
  pub record IsFlushed (messages : List Publish) (before after : Cloud) : Type 0 where
    pub done : List Publish
    pub rest : List Publish
    pub parts : messages ≡ done ++ rest
    pub sent : after.sent ≡ before.sent ++ done
    pub queued : IsQueued rest after
    pub untouched : others after ≡ others before
    pub undropped : after.cloud_spool_dropped_limit ≡ before.cloud_spool_dropped_limit

  abbrev Steady : Turn → Type 0
  Steady turn = (turn.peek_db ≡ works) × (turn.pop_db ≡ works)

  module _ (ic : IsCodec c) where
    sends :
        (turn : Turn) (m : Publish) (ms : List Publish) (cl : Cloud)
        → Steady turn
        → cl.connected ≡ true
        → IsQueued (m ∷ ms) cl
        → turn.send_ok ≡ true
        → flush_turn c turn cl
          ≡ again (record cl {
            spool = record cl.spool { rows = map c.encode ms; count = cl.spool.count - 1 };
            sent = cl.sent ++ (m ∷ []);
          })
    sends turn m ms cl (p, r) on q yes' =
        let d = ic.decode-encode m in
        unfold flush_turn peek popleft publish_cloud_message in ground (arith, d)

    keeps :
        (turn : Turn) (m : Publish) (ms : List Publish) (cl : Cloud)
        → Steady turn
        → cl.connected ≡ true
        → IsQueued (m ∷ ms) cl
        → turn.send_ok ≡ false
        → flush_turn c turn cl
          ≡ stop (record cl { spool = record cl.spool { rows = c.encode m ∷ map c.encode ms } })
    keeps turn m ms cl (p, r) on q no' =
        let d = ic.decode-encode m in
        unfold flush_turn peek popleft publish_cloud_message in ground (arith, d)

    -- A turn with the first message: it is sent and removed, or stays.
    turn_lem :
        (turn : Turn) (m : Publish) (ms : List Publish) (cl : Cloud)
        → Steady turn
        → cl.connected ≡ true
        → IsQueued (m ∷ ms) cl
        → ((cl' : Cloud) × (flush_turn c turn cl ≡ again cl')
            × IsQueued ms cl'
            × (cl'.sent ≡ cl.sent ++ (m ∷ []))
            × (cl'.connected ≡ true)
            × (others cl' ≡ others cl)
            × (cl'.cloud_spool_dropped_limit ≡ cl.cloud_spool_dropped_limit))
          ⊎ ((cl' : Cloud) × (flush_turn c turn cl ≡ stop cl')
              × IsQueued (m ∷ ms) cl'
              × (cl'.sent ≡ cl.sent)
              × (others cl' ≡ others cl)
              × (cl'.cloud_spool_dropped_limit ≡ cl.cloud_spool_dropped_limit))
    turn_lem turn m ms cl steady on q = elim (Bool-cases turn.send_ok) [
      | inl yes' ↦ inl (
        record cl {
          spool = record cl.spool { rows = map c.encode ms; count = cl.spool.count - 1 };
          sent = cl.sent ++ (m ∷ []);
        },
        sends turn m ms cl steady on q yes',
        record { file = q.file; rows = refl; counted = omega (arith, q.counted) },
        refl,
        on,
        refl,
        refl,
      )
      | inr no' ↦ inr (
        record cl { spool = record cl.spool { rows = c.encode m ∷ map c.encode ms } },
        keeps turn m ms cl steady on q no',
        record { file = q.file; rows = refl; counted = q.counted },
        refl,
        refl,
        refl,
      )
    ]

    nonzero : (n k : ℕ) → n ≡ suc k → (n == 0) ≡ false
    nonzero n k h = ground arith

    loop-IsFlushed :
        (messages : List Publish) (turns : ℕ → Turn) (cl : Cloud)
        → ((n : ℕ) → Steady (turns n))
        → cl.connected ≡ true
        → IsQueued messages cl
        → IsFlushed messages cl (flush_loop c (length messages) turns cl)
    unfolding flush_loop
    loop-IsFlushed [] turns cl steady on q = record {
      done = [];
      rest = [];
      parts = refl;
      sent = sym (append-nil cl.sent);
      queued = q;
      untouched = refl;
      undropped = refl;
    }
    loop-IsFlushed (m ∷ ms) turns cl steady on q =
        let some_left = nonzero cl.spool.count (length ms) q.counted in
        elim (turn_lem (turns (length ms)) m ms cl (steady (length ms)) on q) [
          | inl (cl', e, q', s', on', o', d') ↦
              let f = loop-IsFlushed ms turns cl' steady on' q' in
              rw (some_left, e)
                (record {
                  done = m ∷ f.done;
                  rest = f.rest;
                  parts = ap (λ r. m ∷ r) f.parts;
                  sent = f.sent ∙ ap (λ r. r ++ f.done) s' ∙ append_assoc cl.sent (m ∷ []) f.done;
                  queued = f.queued;
                  untouched = f.untouched ∙ o';
                  undropped = f.undropped ∙ d';
                })
          | inr (cl', e, q', s', o', d') ↦
              rw (some_left, e)
                (record {
                  done = [];
                  rest = m ∷ ms;
                  parts = refl;
                  sent = s' ∙ sym (append-nil cl.sent);
                  queued = q';
                  untouched = o';
                  undropped = d';
                })
        ]

    loop_empties :
        (messages : List Publish) (turns : ℕ → Turn) (cl : Cloud)
        → ((n : ℕ) → Steady (turns n) × ((turns n).send_ok ≡ true))
        → cl.connected ≡ true
        → IsQueued messages cl
        → IsQueued [] (flush_loop c (length messages) turns cl)
          × ((flush_loop c (length messages) turns cl).sent ≡ cl.sent ++ messages)
    unfolding flush_loop
    loop_empties [] turns cl good on q = (q, sym (append-nil cl.sent))
    loop_empties (m ∷ ms) turns cl good on q =
        let some_left = nonzero cl.spool.count (length ms) q.counted in
        let k = length ms in
        let cl' = record cl {
          spool = record cl.spool { rows = map c.encode ms; count = cl.spool.count - 1 };
          sent = cl.sent ++ (m ∷ []);
        } in
        let e = sends (turns k) m ms cl (good k).0 on q (good k).1 in
        let q' : IsQueued ms cl' = record {
          file = q.file;
          rows = refl;
          counted = omega (arith, q.counted);
        } in
        let f = loop_empties ms turns cl' good on q' in
        rw (some_left, e) (f.0, f.1 ∙ append_assoc cl.sent (m ∷ []) ms)

    flush_shape :
        (n : ℕ) (turns : ℕ → Turn) (cl : Cloud)
        → cl.connected ≡ true
        → cl.spool.count ≡ n
        → flush_cloud_spool c turns cl ≡ settle c (flush_loop c n turns cl)
    flush_shape n turns cl on counted =
        let same = ap (λ k. settle c (flush_loop c k turns cl)) counted in
        unfold flush_cloud_spool in ground (arith, same)

    -- A flush of a spool that holds coded messages, over a working database, sends some of them, from the
    -- oldest on and in their order, and leaves the others queued in their order, wherever a send fails:
    -- none is lost and none is both sent and kept.
    pub flush-IsFlushed :
        (messages : List Publish) (turns : ℕ → Turn) (cl : Cloud)
        → ((n : ℕ) → Steady (turns n))
        → cl.connected ≡ true
        → IsQueued messages cl
        → IsFlushed messages cl (flush_cloud_spool c turns cl)
    flush-IsFlushed messages turns cl steady on q =
        let f = loop-IsFlushed messages turns cl steady on q in
        rw (flush_shape (length messages) turns cl on q.counted) (record {
          done = f.done;
          rest = f.rest;
          parts = f.parts;
          sent = f.sent;
          queued = record {
            file = f.queued.file;
            rows = f.queued.rows;
            counted = f.queued.counted;
          };
          untouched = f.untouched;
          undropped = f.undropped;
        })

    -- A flush over a working database, while the cloud is connected and every send works, of a spool that holds
    -- coded messages only and counts them rightly, sends all of them in their order and leaves it empty.
    pub flush_empties :
        (messages : List Publish) (turns : ℕ → Turn) (cl : Cloud)
        → ((n : ℕ) → Steady (turns n) × ((turns n).send_ok ≡ true))
        → cl.connected ≡ true
        → IsQueued messages cl
        → ((flush_cloud_spool c turns cl).spool.rows ≡ [])
          × ((flush_cloud_spool c turns cl).cloud_spool_pending_messages ≡ 0)
          × ((flush_cloud_spool c turns cl).sent ≡ cl.sent ++ messages)
    flush_empties messages turns cl good on q =
        let (left, all_sent) = loop_empties messages turns cl good on q in
        rw (flush_shape (length messages) turns cl on q.counted) (left.rows, left.counted, all_sent)
