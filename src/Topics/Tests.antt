-- ===== src/Topics/Tests.antt =====
-- Paths under the prefix "/br/".
use arduino_yun_bridge.Base.{◌≡◌, refl, none, some, List, [], ◌∷◌, Text, codes}
use arduino_yun_bridge.Topics.{
  split, segments_of, lstrip, rstrip, join, topic_path, is_topic, TopicRoute, parse_topic,
}
use arduino_yun_bridge.Topics.RoundTrip.{parse-topic_path}

abbrev pins : List Text
pins = codes "13" ∷ codes "mode" ∷ []

mode_path : topic_path (codes "/br/") (codes "d") pins ≡ codes "br/d/13/mode"
unfolding topic_path lstrip rstrip
mode_path = refl

parse-topic_path_example :
    parse_topic (codes "/br/") (topic_path (codes "/br/") (codes "d") pins)
    ≡ some record {
      raw = topic_path (codes "/br/") (codes "d") pins;
      prefix = join (segments_of (codes "/br/"));
      topic = codes "d";
      segments = pins;
    }
unfolding split is_topic
parse-topic_path_example =
    parse-topic_path (codes "/br/") (codes "d") pins refl refl ((refl, refl), ((refl, refl), tt))

abbrev mode_route : TopicRoute
mode_route = record {
  raw = codes "br/d/13/mode";
  prefix = codes "br";
  topic = codes "d";
  segments = pins;
}

mode_parsed : parse_topic (codes "/br/") (codes "br/d/13/mode") ≡ some mode_route
unfolding parse_topic split is_topic
mode_parsed = refl

unknown_service : parse_topic (codes "br") (codes "br/radio/1") ≡ none
unfolding parse_topic split is_topic
unknown_service = refl
