-- ===== src/Service/Requests/Tests.antt =====
-- Requests to a service that allows nothing, or only to read digital pins.
use arduino_yun_bridge.Base.{arith, ◌≡◌, ◌⊎◌, refl, none, List, [], ◌∷◌, Text, codes}
use arduino_yun_bridge.Topics.{TopicRoute, is_topic, parse_topic, behind, split}
use arduino_yun_bridge.Service.Files.Toy.{toy}
use arduino_yun_bridge.Service.Requests.{reject_cloud, handle_request}
use arduino_yun_bridge.Service.Requests.Authorized.{handle_request-denied}
use arduino_yun_bridge.Console.{Console}
use arduino_yun_bridge.Service.Requests.Paused.{handle_all, paused_keeps_last}
use arduino_yun_bridge.Service.Toy.{codecs, surroundings, at_rest, request}

abbrev route : Text → Text → List Text → TopicRoute
route raw topic segments = record {
  raw = raw;
  prefix = codes "br";
  topic = topic;
  segments = segments;
}

handle_request-denied_example :
    ((act : Text) × (handle_request toy codecs
          (λ t. t)
          surroundings
          (request (codes "br/sh/poll/7") [])
          (at_rest none)
        ≡ reject_cloud toy codecs
            (request (codes "br/sh/poll/7") [])
            (codes "sh")
            act
            (at_rest none)))
    ⊎ ((codes "sh" ≡ codes "system") ⊎ (codes "poll" ∷ codes "7" ∷ [] ≡ []))
unfolding parse_topic behind split is_topic
handle_request-denied_example =
    handle_request-denied toy codecs (λ t. t) surroundings (request (codes "br/sh/poll/7") [])
      (route (codes "br/sh/poll/7") (codes "sh") (codes "poll" ∷ codes "7" ∷ [])) (at_rest none)
      refl (λ act. refl)

abbrev paused : Console
paused = record (at_rest none).console {
  console_to_mcu_queue = (1 ∷ []) ∷ (2 ∷ []) ∷ [];
  mailbox_queue_limit = 2;
}

paused_keeps_last_example :
    (handle_all ((3 ∷ []) ∷ []) paused).console_to_mcu_queue ≡ (2 ∷ []) ∷ (3 ∷ []) ∷ []
paused_keeps_last_example = paused_keeps_last ((3 ∷ []) ∷ []) paused refl (refl, tt) (omega arith)
