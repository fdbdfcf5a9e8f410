-- ===== src/Service/Pins/Tests.antt =====
-- Two reads wait, where the limit is two, and one is asked for.
use arduino_yun_bridge.Base.{
  ◌≡◌, false, none, some, [], ◌∷◌, arith, Bytes, Text, codes, Option, ℕ, map,
}
use arduino_yun_bridge.Topics.{TopicRoute}
use arduino_yun_bridge.Service.Pins.{Request, PinRequest, Pins, pin_value}
use arduino_yun_bridge.Service.Pins.Queues.{
  IsLimited, run_pins, requested, digital_value, run_pins-IsLimited, digital_answers_in_order,
}

abbrev read_route : TopicRoute
read_route = record {
  raw = codes "br/d/13/read";
  prefix = codes "br";
  topic = codes "d";
  segments = codes "13" ∷ codes "read" ∷ [];
}

abbrev request : Request
request = record {
  topic = codes "br/d/13/read";
  payload = [];
  correlation_data = none;
  response_topic = none;
}

abbrev read_of : ℕ → PinRequest
read_of pin = record { pin = pin; reply_context = request }

abbrev full : Pins
full = record {
  pending_pin_request_limit = 2;
  pending_digital_reads = read_of 5 ∷ read_of 6 ∷ [];
  pending_analog_reads = [];
  packets = [];
  reports = [];
  raised = false;
}

abbrev decode : Bytes → Option Text
decode b = some b

abbrev no_number : Text → Option ℕ
no_number t = none

run_pins-IsLimited_example :
    IsLimited (run_pins decode no_number (requested read_route request ∷ digital_value 1 ∷ []) full)
run_pins-IsLimited_example =
    run_pins-IsLimited decode no_number (requested read_route request ∷ digital_value 1 ∷ []) full
      (record { digital = omega arith; analog = omega arith })

digital_answers_in_order_example :
    ((run_pins decode no_number (map digital_value (1 ∷ 0 ∷ 1 ∷ [])) full).reports
      ≡ pin_value (codes "d") (some 5) 1 (some request)
        ∷ pin_value (codes "d") (some 6) 0 (some request)
        ∷ pin_value (codes "d") none 1 none
        ∷ [])
    × ((run_pins decode no_number (map digital_value (1 ∷ 0 ∷ 1 ∷ [])) full).pending_digital_reads
        ≡ [])
digital_answers_in_order_example = digital_answers_in_order decode no_number (1 ∷ 0 ∷ 1 ∷ []) full
