-- ===== src/Service/Pins/Queues.antt =====
-- The queues of pending reads.
use arduino_yun_bridge.Base.{
  ◌∙◌, suc, codes, sym, ◌++◌, ◌≡◌, ℕ, ◌≤◌, true, Option, none, some, List, [], ◌∷◌, arith, Bytes,
  Text, length, length-append, map, drop, zero, refl,
}
use mathlib.Core.List.{append-nil, append_assoc}
use arduino_yun_bridge.Topics.{TopicRoute}
use arduino_yun_bridge.Service.Pins.{
  pin_value, Report, Request, PinRequest, Pins, read_pin, pin_request, parse_pin, with_text,
  with_pin, handle_pin, on_digital_read_resp, on_analog_read_resp, pin_of, context_of,
  first_request, other_requests,
}

-- Neither queue is longer than the limit.
pub record IsLimited (s : Pins) : Type 0 where
  pub digital : length s.pending_digital_reads ≤ s.pending_pin_request_limit
  pub analog : length s.pending_analog_reads ≤ s.pending_pin_request_limit

read_pin-IsLimited :
    (r : TopicRoute) (request : Request) (pin : ℕ) (s : Pins)
    → IsLimited s
    → IsLimited (read_pin r request pin s)
read_pin-IsLimited r request pin s i =
    let new : List PinRequest = record { pin = pin; reply_context = request } ∷ [] in
    let digital = length-append s.pending_digital_reads new in
    let analog = length-append s.pending_analog_reads new in
    unfold read_pin in ground (arith, digital, analog)

request-IsLimited :
    (parse_int : Text → Option ℕ) (r : TopicRoute) (request : Request) (pin : ℕ) (text : Text)
    (s : Pins)
    → IsLimited s
    → IsLimited (pin_request parse_int r request pin text s)
request-IsLimited parse_int r request pin text s i =
    let read = read_pin-IsLimited r request pin s i in unfold pin_request in ground (arith, read)

response-IsLimited :
    (value : ℕ) (s : Pins)
    → IsLimited s
    → IsLimited (on_digital_read_resp value s) × IsLimited (on_analog_read_resp value s)
response-IsLimited value s i = unfold on_digital_read_resp on_analog_read_resp in ground arith

-- What happens to the pins.
pub data PinEvent : Type 0 where
  requested : TopicRoute → Request → PinEvent
  digital_value analog_value : ℕ → PinEvent

drop-nothing : (n : ℕ) → drop {A = PinRequest} n [] ≡ []
drop-nothing zero = refl
drop-nothing (suc n) = refl

module _ (decode : Bytes → Option Text) (parse_int : Text → Option ℕ) where
  text-IsLimited :
      (r : TopicRoute) (request : Request) (pin : ℕ) (text : Option Text) (s : Pins)
      → IsLimited s
      → IsLimited (with_text decode parse_int r request pin text s)
  text-IsLimited r request pin none s i = record { digital = i.digital; analog = i.analog }
  text-IsLimited r request pin (some text) s i = request-IsLimited parse_int r request pin text s i

  pin-IsLimited :
      (r : TopicRoute) (request : Request) (pin : Option ℕ) (s : Pins)
      → IsLimited s
      → IsLimited (with_pin decode parse_int r request pin s)
  pin-IsLimited r request none s i = i
  pin-IsLimited r request (some pin) s i = text-IsLimited r request pin (decode request.payload) s i

  handle_pin-IsLimited :
      (r : TopicRoute) (request : Request) (s : Pins)
      → IsLimited s
      → IsLimited (handle_pin decode parse_int r request s)
  unfolding handle_pin
  handle_pin-IsLimited r request s i = segments r.segments
    where
      segments :
          (segs : List Text)
          → IsLimited (elim segs [
            | [] ↦ record s { raised = true }
            | first ∷ rest ↦ with_pin decode parse_int r request (parse_pin first) s
          ])
      segments [] = record { digital = i.digital; analog = i.analog }
      segments (first ∷ rest) = pin-IsLimited r request (parse_pin first) s i

  unfoldable pub on_pin_event : PinEvent → Pins → Pins
  on_pin_event (requested r request) s = handle_pin decode parse_int r request s
  on_pin_event (digital_value v) s = on_digital_read_resp v s
  on_pin_event (analog_value v) s = on_analog_read_resp v s

  abbrev pub run_pins : List PinEvent → Pins → Pins
  run_pins [] s = s
  run_pins (e ∷ es) s = run_pins es (on_pin_event e s)

  event-IsLimited : (e : PinEvent) (s : Pins) → IsLimited s → IsLimited (on_pin_event e s)
  unfolding on_pin_event
  event-IsLimited (requested r request) s i = handle_pin-IsLimited r request s i
  event-IsLimited (digital_value v) s i = (response-IsLimited v s i).0
  event-IsLimited (analog_value v) s i = (response-IsLimited v s i).1

  -- Whatever requests and answers come, neither queue of pending reads grows longer than the limit,
  -- when neither is at the start.
  pub run_pins-IsLimited : (es : List PinEvent) (s : Pins) → IsLimited s → IsLimited (run_pins es s)
  run_pins-IsLimited [] s i = i
  run_pins-IsLimited (e ∷ es) s i = run_pins-IsLimited es (on_pin_event e s) (event-IsLimited e s i)

  -- The reports of answers to pending digital reads: the first answer is the first read's.
  abbrev pub digital_reports : List PinRequest → List ℕ → List Report
  digital_reports rs [] = []
  digital_reports [] (v ∷ vs) = pin_value (codes "d") none v none ∷ digital_reports [] vs
  digital_reports (r ∷ rs) (v ∷ vs) =
      pin_value (codes "d") (some r.pin) v (some r.reply_context) ∷ digital_reports rs vs

  one_answer :
      (v : ℕ) (vs : List ℕ) (s : Pins)
      → ((on_digital_read_resp v s).reports
          ++ digital_reports (on_digital_read_resp v s).pending_digital_reads vs)
        ≡ (s.reports ++ digital_reports s.pending_digital_reads (v ∷ vs))
  unfolding on_digital_read_resp
  one_answer v vs s = pending s.pending_digital_reads
    where
      pending :
          (rs : List PinRequest)
          → ((s.reports
                ++ (pin_value
                      (codes "d")
                      (pin_of (first_request rs))
                      v
                      (context_of (first_request rs))
                    ∷ []))
              ++ digital_reports (other_requests rs) vs)
            ≡ (s.reports ++ digital_reports rs (v ∷ vs))
      pending [] =
          append_assoc s.reports (pin_value (codes "d") none v none ∷ []) (digital_reports [] vs)
      pending (r ∷ rs) =
          append_assoc s.reports (pin_value (codes "d") (some r.pin) v (some r.reply_context) ∷ [])
            (digital_reports rs vs)

  -- The answers to digital reads are given to the pending reads in the order in which these were
  -- made, the first one to the oldest, with its pin and its request; an answer beyond them is
  -- reported with neither. The reads that were answered are no longer pending.
  pub digital_answers_in_order :
      (vs : List ℕ) (s : Pins)
      → ((run_pins (map digital_value vs) s).reports
          ≡ (s.reports ++ digital_reports s.pending_digital_reads vs))
        × ((run_pins (map digital_value vs) s).pending_digital_reads
            ≡ drop (length vs) s.pending_digital_reads)
  unfolding on_pin_event on_digital_read_resp
  digital_answers_in_order [] s = (sym (append-nil s.reports), refl)
  digital_answers_in_order (v ∷ vs) s =
      let ih = digital_answers_in_order vs (on_digital_read_resp v s) in
      (ih.0 ∙ one_answer v vs s, ih.1 ∙ rest)
    where
      rest :
          drop (length vs) (on_digital_read_resp v s).pending_digital_reads
          ≡ drop (suc (length vs)) s.pending_digital_reads
      rest = pending s.pending_digital_reads
        where
          pending :
              (rs : List PinRequest)
              → drop (length vs) (other_requests rs) ≡ drop (suc (length vs)) rs
          pending [] = drop-nothing (length vs)
          pending (r ∷ rs) = refl
