-- ===== src/Transport/Delivery.antt =====
-- From the sender of one end to the service of the other.
use arduino_yun_bridge.Base.{
  ap, ◌∙◌, ◌^◌, ◌%◌, ℕ, ◌+◌, ◌≤◌, ◌≡◌, refl, sym, true, false, Option, none, some, List, [], ◌∷◌,
  arith, Bytes, Option-cases, inl, inr, length,
}
use arduino_yun_bridge.Protocol.{is_system_command}
use arduino_yun_bridge.Security.{
  extract_nonce_counter, generate_nonce_with_counter, validate_nonce_counter,
}
use arduino_yun_bridge.Security.Nonces.{extract-generate, validate-generate}
use arduino_yun_bridge.Frame.{
  parse_frame, Payload, Wire, IsWire, Envelope, ok, build_frame, active_key, present,
  nonce_or_zeros,
}
use arduino_yun_bridge.Frame.RoundTrip.{delivered, Result-cases, parse-build_frame}
use arduino_yun_bridge.Link.{Link, is_synchronized}
use arduino_yun_bridge.Transport.{
  Cobs, IsCobs, Config, Transport, Handed, Io, written, session_key, next_nonce, write, send_frame,
  take_sequence, send_raw,
}
use arduino_yun_bridge.Transport.Receive.{
  is_excluded, check_replay, given, remembered, take_frame, dispatch, read_packet, on_frame,
  process_packet,
}

key_of_on : (l : Link) → is_synchronized l ≡ true → session_key l ≡ l.link_session_key
key_of_on l on = unfold session_key in rw on refl

active_key_lem :
    (key : Option Bytes) (command_id : ℕ)
    → is_system_command command_id ≡ false
    → active_key key command_id ≡ present key
active_key_lem key command_id app = rw app refl

given_nonce :
    (nonce : Bytes) {counter : ℕ}
    → extract_nonce_counter nonce ≡ some counter
    → nonce_or_zeros (some nonce) ≡ nonce
unfolding extract_nonce_counter
given_nonce [] h = absurd (ground arith)
given_nonce (b ∷ bs) h = refl

same_handed :
    {M : Type 0} (rest : List (Handed M)) {a b s s' : ℕ} {p p' : Payload M}
    → a ≡ b
    → s ≡ s'
    → p ≡ p'
    → ◌≡◌ {A = List (Handed M)}
        (record { command_id = a; seq_id = s; payload = p } ∷ rest)
        (record { command_id = b; seq_id = s'; payload = p' } ∷ rest)
same_handed rest e f g = λ i. record { command_id = e i; seq_id = f i; payload = g i } ∷ rest

module _ (w : Wire) (c : Cobs) where
  -- What a written application frame was made of.
  record IsWritten (io : Io) (command_id seq : ℕ) (payload : Payload w.Message)
      (t t' : Transport w.Message) : Type 0 where
    nonce : Bytes
    raw : Bytes
    generated :
        generate_nonce_with_counter io.random t.link.link_nonce_counter
        ≡ some (nonce, t'.link.link_nonce_counter)
    built : build_frame w command_id seq payload (some nonce) (session_key t.link) ≡ ok raw
    wrote : t'.written ≡ c.encode raw ∷ t.written

  frame_inv :
      (io : Io) (command_id seq : ℕ) (payload : Payload w.Message) (t : Transport w.Message)
      {t' : Transport w.Message}
      → is_synchronized t.link ≡ true
      → is_system_command command_id ≡ false
      → send_frame w c io command_id seq payload (next_nonce io.random command_id t.link) t
        ≡ (t', written)
      → IsWritten io command_id seq payload t t'
  frame_inv io command_id seq payload t on app sent =
      elim (Option-cases (generate_nonce_with_counter io.random t.link.link_nonce_counter)) [
        | inl e ↦ absurd (unfold send_frame next_nonce in ground (arith, e))
        | inr ((nonce, counter), e) ↦
            elim (Result-cases
              (build_frame w command_id seq payload (some nonce) (session_key t.link))) [
                | inr (x, b) ↦ absurd (
                    unfold send_frame next_nonce write session_key is_synchronized in
                    ground (arith, e, b))
                | inl (raw, b) ↦ record {
                  nonce = nonce;
                  raw = raw;
                  generated =
                      unfold send_frame next_nonce write session_key is_synchronized in
                      ground (arith, e, b);
                  built = b;
                  wrote =
                      unfold send_frame next_nonce write session_key is_synchronized in
                      ground (arith, e, b);
                }
              ]
      ]

  -- The counting of sequence ids touches nothing else.
  raw_inv :
      (io : Io) (command_id : ℕ) (payload : Payload w.Message) (seq_id : Option ℕ)
      (t : Transport w.Message) {t' : Transport w.Message}
      → is_synchronized t.link ≡ true
      → is_system_command command_id ≡ false
      → send_raw w c io command_id payload seq_id t ≡ (t', written)
      → IsWritten io command_id (take_sequence seq_id t).1 payload t t'
  raw_inv io command_id payload none t {t'} on app sent =
      let seq = (t.tx_sequence_id + 1) % 2 ^ 16 in
      let t₁ = record t { tx_sequence_id = seq } in
      let inv : send_frame w c io command_id seq payload (next_nonce io.random command_id t₁.link)
            t₁
          ≡ (t', written) =
        unfold send_raw take_sequence in ground arith in
      let i = frame_inv io command_id seq payload t₁ on app inv in
      unfold take_sequence in
      record {
        nonce = i.nonce;
        raw = i.raw;
        generated = i.generated;
        built = i.built;
        wrote = i.wrote;
      }
  raw_inv io command_id payload (some seq) t {t'} on app sent =
      let inv : send_frame w c io command_id seq payload (next_nonce io.random command_id t.link) t
          ≡ (t', written) =
        unfold send_raw take_sequence in ground arith in
      unfold take_sequence in frame_inv io command_id seq payload t on app inv

  -- A receiver takes a frame whose counter is new, and hands it on.
  take_new :
      (read_ack : Payload w.Message → Option ℕ) (serve : Transport w.Message → Transport w.Message)
      (e : Envelope w.Message) (p : Payload w.Message) (counter : ℕ) (r : Transport w.Message)
      → is_synchronized r.link ≡ true
      → is_excluded e.command_id ≡ false
      → validate_nonce_counter e.nonce r.link.link_last_nonce_counter ≡ (true, counter)
      → (take_frame read_ack serve e p r ≡ serve (given read_ack e p (remembered e r)))
        × ((remembered e r).link.link_last_nonce_counter ≡ counter)
  take_new read_ack serve e p counter r on app valid =
      unfold take_frame check_replay in ground arith

  application_not_excluded :
      (command_id : ℕ)
      → command_id ≤ 65535
      → is_system_command command_id ≡ false
      → is_excluded command_id ≡ false
  application_not_excluded command_id small app =
      unfold is_excluded is_system_command in ground arith

  built_small :
      (command_id seq : ℕ) (payload : Payload w.Message) (given key : Option Bytes) {raw : Bytes}
      → build_frame w command_id seq payload given key ≡ ok raw
      → command_id ≤ 65535
  built_small command_id seq payload given key built = unfold build_frame in ground arith

  module _ (cfg : Config) (read_ack : Payload w.Message → Option ℕ) (baud_packet : ℕ → w.Message)
      (iw : IsWire w) (ic : IsCobs c) where
    read_sent :
        (raw : Bytes) (a b : Link) {e : Envelope w.Message} {p : Payload w.Message}
        → session_key b ≡ session_key a
        → parse_frame w raw (session_key a) ≡ ok (e, p)
        → read_packet w c cfg read_ack baud_packet (c.encode raw) b ≡ ok (e, p)
    read_sent raw a b same parsed =
        let opened = ic.decode-encode raw in
        unfold read_packet in ground (arith, opened, same, parsed)

    idle_dispatch :
        (serve : Transport w.Message → Transport w.Message) (e : Envelope w.Message)
        (p : Payload w.Message) (r : Transport w.Message)
        → r.negotiating ≡ false
        → dispatch w c cfg read_ack baud_packet serve e p r ≡ take_frame read_ack serve e p r
    idle_dispatch serve e p r idle = unfold dispatch in rw idle refl

    receive_new :
        (io : Io) (serve : Transport w.Message → Transport w.Message) (encoded : Bytes)
        (counter : ℕ) (r : Transport w.Message) {e : Envelope w.Message} {p : Payload w.Message}
        → read_packet w c cfg read_ack baud_packet encoded r.link ≡ ok (e, p)
        → is_synchronized r.link ≡ true
        → r.negotiating ≡ false
        → is_excluded e.command_id ≡ false
        → validate_nonce_counter e.nonce r.link.link_last_nonce_counter ≡ (true, counter)
        → (process_packet w c cfg read_ack baud_packet io serve encoded r
            ≡ serve (given read_ack e p (remembered e r)))
          × ((remembered e r).link.link_last_nonce_counter ≡ counter)
    receive_new io serve encoded counter r {e} {p} read on idle regular valid =
        unfold process_packet on_frame in
        rw (read, idle_dispatch serve e p r idle)
          (take_new read_ack serve e p counter r on regular valid)

    -- An application frame that one end of a synchronised session writes reaches the service of the
    -- other end, which has the same session key, has taken no later nonce and waits for no change of
    -- the baud rate: the packet is written last, and the receiver ends as its service leaves it, which
    -- begins with the command, the sequence id and the payload of the sender handed over to it, and with the
    -- sender's counter remembered.
    pub written_frame_delivered :
        (io io' : Io) (serve : Transport w.Message → Transport w.Message) (command_id : ℕ)
        (payload : Payload w.Message) (seq_id : Option ℕ) (t r : Transport w.Message)
        {t' : Transport w.Message}
        → is_synchronized t.link ≡ true
        → is_synchronized r.link ≡ true
        → r.link.link_session_key ≡ t.link.link_session_key
        → r.link.link_last_nonce_counter ≤ t.link.link_nonce_counter
        → r.negotiating ≡ false
        → is_system_command command_id ≡ false
        → length io.random ≡ 4
        → send_raw w c io command_id payload seq_id t ≡ (t', written)
        → (encoded : Bytes) × (t'.written ≡ encoded ∷ t.written)
          × ((r' : Transport w.Message) × (process_packet w c cfg read_ack baud_packet io' serve
                  encoded r
                ≡ serve r')
              × (r'.handed
                  ≡ record {
                    command_id = command_id;
                    seq_id = (take_sequence seq_id t).1;
                    payload = delivered w (present t.link.link_session_key) payload;
                  }
                    ∷ r.handed)
              × (r'.link.link_last_nonce_counter ≡ t'.link.link_nonce_counter))
    written_frame_delivered io io' serve command_id payload seq_id t r {t'} on on' key le idle app
          four sent =
        let i = raw_inv io command_id payload seq_id t on app sent in
        let seq = (take_sequence seq_id t).1 in
        let key_t = key_of_on t.link on in
        let (e, parsed, command, sequence, carried) =
          parse-build_frame w iw command_id seq payload (some i.nonce) (session_key t.link)
            i.built in
        let sealed = active_key_lem (session_key t.link) command_id app ∙ ap present key_t in
        let regular =
          application_not_excluded command_id
            (built_small command_id seq payload (some i.nonce) (session_key t.link) i.built) app in
        let read = read_sent i.raw t.link r.link (key_of_on r.link on' ∙ key ∙ sym key_t) parsed in
        let (extracted, next, bound) =
          extract-generate io.random t.link.link_nonce_counter four i.generated in
        let fresh_nonce =
          validate-generate io.random t.link.link_nonce_counter r.link.link_last_nonce_counter four
            i.generated in
        let regular' : is_excluded e.command_id ≡ false = rw command regular in
        let valid : validate_nonce_counter e.nonce r.link.link_last_nonce_counter
            ≡ (true, t.link.link_nonce_counter + 1) =
          rw (carried, given_nonce i.nonce extracted) (ground (arith, fresh_nonce)) in
        let received =
          receive_new io' serve (c.encode i.raw) (t.link.link_nonce_counter + 1) r read on' idle
            regular' valid in
        (
          c.encode i.raw,
          i.wrote,
          (
            given read_ack e _ (remembered e r),
            received.0,
            same_handed r.handed command sequence (ap (λ k. delivered w k payload) sealed),
            received.1 ∙ sym next,
          ),
        )
