-- ===== src/Transport/Replay.antt =====
-- No packet of a synchronised session is handed over twice.
use arduino_yun_bridge.Base.{
  ◌∙◌, ◌==◌, Bool, ℕ, ◌+◌, ◌≤◌, ◌≡◌, refl, true, false, Option, none, List, [], ◌∷◌, arith, Bytes,
  Bool-cases, inl, inr, All, if-holds,
}
use arduino_yun_bridge.Security.{generate_nonce_with_counter, validate_nonce_counter}
use arduino_yun_bridge.Frame.{Payload, Wire, Envelope, Result, ok, err}
use arduino_yun_bridge.Link.{Link, is_synchronized}
use arduino_yun_bridge.Protocol.Command
use arduino_yun_bridge.Transport.{
  Cobs, Config, Transport, Io, session_key, next_nonce, write, send_frame, take_sequence, send_raw,
}
use arduino_yun_bridge.Transport.Receive.{
  is_excluded, check_replay, given, remembered, take_frame, check_baudrate_fallback, dispatch,
  read_packet, on_frame, process_packet,
}
use arduino_yun_bridge.Transport.Send.{Event, packet, other, handle_event, handle_events}

-- The same session, further on.
pub record Advances (a b : Link) : Type 0 where
  pub phase : b.phase ≡ a.phase
  pub key : b.link_session_key ≡ a.link_session_key
  pub sent : a.link_nonce_counter ≤ b.link_nonce_counter
  pub taken : a.link_last_nonce_counter ≤ b.link_last_nonce_counter

pub Advances-refl : (a : Link) → Advances a a
Advances-refl a = ground arith

pub Advances-trans : {a b c : Link} → Advances a b → Advances b c → Advances a c
Advances-trans p q = ground arith

pub still_on : {a b : Link} → Advances a b → is_synchronized a ≡ true → is_synchronized b ≡ true
still_on adv on = unfold is_synchronized in ground (arith, adv)

-- A nonce that was checked once is refused from then on.
spent :
    (nonce : Bytes) (last later : ℕ)
    → (validate_nonce_counter nonce last).1 ≤ later
    → validate_nonce_counter nonce later ≡ (false, later)
spent nonce last later le = unfold validate_nonce_counter in ground arith

le-validate : (nonce : Bytes) (last : ℕ) → last ≤ (validate_nonce_counter nonce last).1
le-validate nonce last = unfold validate_nonce_counter in ground arith

refused_keeps :
    (nonce : Bytes) (last : ℕ)
    → (validate_nonce_counter nonce last).0 ≡ false
    → (validate_nonce_counter nonce last).1 ≡ last
refused_keeps nonce last bad = unfold validate_nonce_counter in ground arith

-- The service leaves the link in the same session.
abbrev pub KeepsSession : {M : Type 0} → (Transport M → Transport M) → Type 0
KeepsSession serve = (t : Transport _) → Advances t.link (serve t).link

abbrev pub InSession : {M : Type 0} → Event M → Type 0
InSession (packet io serve encoded) = KeepsSession serve
InSession (other io command_id payload seq_id) = Unit

module _ (w : Wire) (c : Cobs) where
  write-Advances :
      (ok' : Bool) (r : Result Bytes) (t : Transport w.Message)
      → (write w c ok' r t).0.link ≡ t.link
  write-Advances ok' r t = unfold write in ground arith

  -- A write that was counted moved the counter of nonces by at most one.
  pub send_raw-Advances :
      (io : Io) (command_id : ℕ) (payload : Payload w.Message) (seq_id : Option ℕ)
      (t : Transport w.Message)
      → Advances t.link (send_raw w c io command_id payload seq_id t).0.link
  send_raw-Advances io command_id payload seq_id t =
      unfold send_raw take_sequence send_frame write next_nonce generate_nonce_with_counter in
      ground arith

  module _ (cfg : Config) (read_ack : Payload w.Message → Option ℕ)
      (baud_packet : ℕ → w.Message) where
    fallback-Advances :
        (io : Io) (meanwhile : Transport w.Message → Transport w.Message) (t : Transport w.Message)
        → KeepsSession meanwhile
        → Advances t.link (check_baudrate_fallback w c cfg read_ack baud_packet io meanwhile t).link
    fallback-Advances io meanwhile t keeps =
        let started = record t {
          consecutive_crc_errors = 0;
          negotiating = true;
          negotiated = false;
        } in
        let asked =
          send_raw w c io Command.set_baudrate (Payload.message (baud_packet cfg.serial_safe_baud))
            none started in
        let sent =
          send_raw-Advances io Command.set_baudrate
            (Payload.message (baud_packet cfg.serial_safe_baud)) none started in
        let went : Advances t.link (meanwhile asked.0).link =
          Advances-trans {b = asked.0.link} sent (keeps asked.0) in
        unfold check_baudrate_fallback in ground (arith, went)

    take_frame-Advances :
        (serve : Transport w.Message → Transport w.Message) (e : Envelope w.Message)
        (p : Payload w.Message) (t : Transport w.Message)
        → KeepsSession serve
        → Advances t.link (take_frame read_ack serve e p t).link
    take_frame-Advances serve e p t keeps =
        let le = le-validate e.nonce t.link.link_last_nonce_counter in
        let begun : Advances t.link (given read_ack e p (remembered e t)).link =
          unfold check_replay in ground (arith, le) in
        let served = Advances-trans begun (keeps (given read_ack e p (remembered e t))) in
        unfold take_frame in
        if-holds {A = Transport w.Message} (λ s. Advances t.link s.link) (check_replay e t.link).0
          (serve (given read_ack e p (remembered e t))) t (λ h. served) (λ h. Advances-refl t.link)

    dispatch-Advances :
        (serve : Transport w.Message → Transport w.Message) (e : Envelope w.Message)
        (p : Payload w.Message) (t : Transport w.Message)
        → KeepsSession serve
        → Advances t.link (dispatch w c cfg read_ack baud_packet serve e p t).link
    dispatch-Advances serve e p t keeps =
        let taken = take_frame-Advances serve e p t keeps in
        unfold dispatch in ground (arith, taken)

    frame-Advances :
        (io : Io) (serve : Transport w.Message → Transport w.Message)
        (r : Result (Envelope w.Message × Payload w.Message)) (t : Transport w.Message)
        → KeepsSession serve
        → Advances t.link (on_frame w c cfg read_ack baud_packet io serve r t).link
    frame-Advances io serve (err x) t keeps =
        unfold on_frame in
        fallback-Advances io serve (record t { serial_decode_errors = t.serial_decode_errors + 1 })
          keeps
    frame-Advances io serve (ok (e, p)) t keeps =
        unfold on_frame in dispatch-Advances serve e p t keeps

    event-Advances :
        (e : Event w.Message) (t : Transport w.Message)
        → InSession e
        → Advances t.link (handle_event w c cfg read_ack baud_packet e t).link
    event-Advances (packet io serve encoded) t keeps =
        unfold handle_event process_packet in
        frame-Advances io serve (read_packet w c cfg read_ack baud_packet encoded t.link) t keeps
    event-Advances (other io command_id payload seq_id) t keeps =
        unfold handle_event in send_raw-Advances io command_id payload seq_id t

    -- Whatever packets come and whatever frames are sent, if the service keeps the session, it stays the
    -- same one and both nonce counters only grow.
    pub events-Advances :
        (es : List (Event w.Message)) (t : Transport w.Message)
        → All InSession es
        → Advances t.link (handle_events w c cfg read_ack baud_packet es t).link
    unfolding handle_events
    events-Advances [] t keeps = Advances-refl t.link
    events-Advances (e ∷ es) t (keeps, rest) =
        Advances-trans (event-Advances e t keeps)
          (events-Advances es (handle_event w c cfg read_ack baud_packet e t) rest)

    same_packet :
        (encoded : Bytes) {a b : Link}
        → Advances a b
        → read_packet w c cfg read_ack baud_packet encoded b
          ≡ read_packet w c cfg read_ack baud_packet encoded a
    same_packet encoded {a} {b} adv =
        let same_key : session_key b ≡ session_key a =
          unfold session_key is_synchronized in ground (arith, adv) in
        unfold read_packet in ground (arith, same_key)

    not_negotiation :
        (cmd_id : ℕ) → is_excluded cmd_id ≡ false → (cmd_id == Command.set_baudrate_resp) ≡ false
    not_negotiation cmd_id regular = unfold is_excluded in ground arith

    dispatch_regular :
        (serve : Transport w.Message → Transport w.Message) (e : Envelope w.Message)
        (p : Payload w.Message) (t : Transport w.Message)
        → is_excluded e.command_id ≡ false
        → dispatch w c cfg read_ack baud_packet serve e p t ≡ take_frame read_ack serve e p t
    dispatch_regular serve e p t regular =
        let plain = not_negotiation e.command_id regular in unfold dispatch in ground (arith, plain)

    counted :
        (serve : Transport w.Message → Transport w.Message) (e : Envelope w.Message)
        (p : Payload w.Message) (t : Transport w.Message)
        → KeepsSession serve
        → is_synchronized t.link ≡ true
        → is_excluded e.command_id ≡ false
        → (validate_nonce_counter e.nonce t.link.link_last_nonce_counter).1
          ≤ (take_frame read_ack serve e p t).link.link_last_nonce_counter
    counted serve e p t keeps on regular =
        let served = keeps (given read_ack e p (remembered e t)) in
        let kept_counter : (validate_nonce_counter e.nonce t.link.link_last_nonce_counter).1
            ≤ (serve (given read_ack e p (remembered e t))).link.link_last_nonce_counter =
          unfold check_replay in ground (arith, served.taken, on, regular) in
        elim (Bool-cases (validate_nonce_counter e.nonce t.link.link_last_nonce_counter).0) [
          | inl good ↦
              let passed : (check_replay e t.link).0 ≡ true =
                unfold check_replay in rw (on, regular) good in
              unfold take_frame in rw passed kept_counter
          | inr bad ↦
              let kept = refused_keeps e.nonce t.link.link_last_nonce_counter bad in
              unfold take_frame check_replay in rw (on, regular, bad) (omega (arith, kept))
        ]

    -- The first time, the nonce is checked, whatever comes of it.
    first_time :
        (serve : Transport w.Message → Transport w.Message) (e : Envelope w.Message)
        (p : Payload w.Message) (t : Transport w.Message)
        → KeepsSession serve
        → is_synchronized t.link ≡ true
        → is_excluded e.command_id ≡ false
        → (validate_nonce_counter e.nonce t.link.link_last_nonce_counter).1
          ≤ (dispatch w c cfg read_ack baud_packet serve e p t).link.link_last_nonce_counter
    first_time serve e p t keeps on regular =
        rw (dispatch_regular serve e p t regular) (counted serve e p t keeps on regular)

    second_time :
        (serve : Transport w.Message → Transport w.Message) (e : Envelope w.Message)
        (p : Payload w.Message) (last : ℕ) (t : Transport w.Message)
        → is_synchronized t.link ≡ true
        → is_excluded e.command_id ≡ false
        → (validate_nonce_counter e.nonce last).1 ≤ t.link.link_last_nonce_counter
        → dispatch w c cfg read_ack baud_packet serve e p t ≡ t
    second_time serve e p last t on regular le =
        let old = spent e.nonce last t.link.link_last_nonce_counter le in
        unfold dispatch take_frame check_replay is_excluded in ground (arith, old)

    -- On a synchronised link, a packet whose command is not a status or a system command is handed over
    -- at most once in the session: when the same packet comes again, after any packets and any sends, it
    -- changes nothing at all, if the service and the other tasks kept the link synchronised
    -- under the same key and took back no counter.
    pub replayed_packet_dropped :
        (io io' : Io) (serve serve' : Transport w.Message → Transport w.Message) (encoded : Bytes)
        (es : List (Event w.Message)) (t : Transport w.Message) {e : Envelope w.Message}
        {p : Payload w.Message}
        → KeepsSession serve
        → All InSession es
        → is_synchronized t.link ≡ true
        → read_packet w c cfg read_ack baud_packet encoded t.link ≡ ok (e, p)
        → is_excluded e.command_id ≡ false
        → let later =
            handle_events w c cfg read_ack baud_packet es
              (process_packet w c cfg read_ack baud_packet io serve encoded t) in
          process_packet w c cfg read_ack baud_packet io' serve' encoded later ≡ later
    replayed_packet_dropped io io' serve serve' encoded es t {e} {p} keeps all_keep on read
          regular =
        let first = dispatch w c cfg read_ack baud_packet serve e p t in
        let processed : process_packet w c cfg read_ack baud_packet io serve encoded t ≡ first =
          unfold process_packet on_frame in rw read refl in
        let later = handle_events w c cfg read_ack baud_packet es first in
        let events = events-Advances es first all_keep in
        let run = Advances-trans (dispatch-Advances serve e p t keeps) events in
        let read' = same_packet encoded run ∙ read in
        let checked = first_time serve e p t keeps on regular in
        let again =
          second_time serve' e p t.link.link_last_nonce_counter later (still_on run on) regular
            (omega (arith, checked, events.taken)) in
        rw processed (unfold process_packet on_frame in rw read' again)
