-- ===== src/Cloud/Context.antt =====
-- Requests, answers and envelopes: `resolve_cloud_context` (mcubridge/mcubridge/protocol/structures.py),
-- `_publish_cloud_message` and the requests that the cloud session and the local clients make
-- (mcubridge/mcubridge/services/runtime.py).
use arduino_yun_bridge.Base.{
  take, none, some, [], ◌∷◌, ◌∷◌, ◌++◌, [], some, codes, is_empty, contains_text, Bytes, Text,
  Option, ℕ, if◌then◌else◌,
}
use arduino_yun_bridge.Base.Ints.{to_bytes_be, from_bytes_be}
use arduino_yun_bridge.Topics.{topic_path}
use arduino_yun_bridge.Cloud.{Publish}
use arduino_yun_bridge.Service.Pins.{Request}

abbrev with_topic : Option Text → Publish → Publish
with_topic none m = m
with_topic (some topic) m = record m { topic_name = topic }

abbrev with_correlation : Option Bytes → Publish → Publish
with_correlation none m = m
with_correlation (some key) m = record m { correlation_data = some key }

abbrev with_request_topic : Text → Publish → Publish
with_request_topic topic m = if is_empty topic then m else record m {
  user_properties = m.user_properties ++ ((codes "bridge-request-topic", topic) ∷ []);
}

-- The context is the request that the message answers; it has no `properties`.
unfoldable pub resolve_cloud_context : Publish → Option Request → Publish
resolve_cloud_context m none = m
resolve_cloud_context m (some q) =
    with_request_topic q.topic (with_correlation q.correlation_data (with_topic q.response_topic m))

-- `pb.TelemetryReport`, with the one field that is set.
pub data Telemetry : Type 0 where
  daemon_metrics_blob bridge_snapshot_blob handshake_snapshot_blob system_status_blob :
      Bytes → Telemetry

-- `pb.CommandResponse` is a status code and a payload, `pb.CommandRequest` a path and a payload. An event
-- is its type, its severity and its description. A ping is left out: the daemon sends none, and reads
-- nothing of one; so are the time and the signature of an envelope.
pub data Content : Type 0 where
  command_response : ℕ → Bytes → Content
  command_request : Text → Bytes → Content
  telemetry : Telemetry → Content
  event : Text → Text → Text → Content
  pong : Content

-- `pb.CloudEnvelope`
pub record Envelope : Type 0 where
  pub protocol_version : ℕ
  pub device_id : Text
  pub sequence_id : ℕ
  pub content : Content

unfoldable pub telemetry_of : Publish → Telemetry
telemetry_of m =
    if contains_text (codes "metrics") m.topic_name
    then daemon_metrics_blob m.payload
    else if contains_text (codes "summary") m.topic_name
    then bridge_snapshot_blob m.payload
    else if contains_text (codes "handshake") m.topic_name
    then handshake_snapshot_blob m.payload
    else system_status_blob m.payload

abbrev telemetry_envelope : Text → Publish → Envelope
telemetry_envelope device_id m = record {
  protocol_version = 2;
  device_id = device_id;
  sequence_id = 0;
  content = telemetry (telemetry_of m);
}

-- The envelope that `_publish_cloud_message` sends for a message.
unfoldable pub envelope_of : Text → Publish → Envelope
unfolding telemetry_of
envelope_of device_id m = elim m.correlation_data [
  | none ↦ telemetry_envelope device_id m
  | some key ↦ if is_empty key then telemetry_envelope device_id m else record {
    protocol_version = 2;
    device_id = device_id;
    sequence_id = from_bytes_be (take 8 key);
    content = command_response 200 m.payload;
  }
]

-- The request that `connect_cloud_session` puts into the queue for an envelope, if it does.
unfoldable pub request_of : Text → Envelope → Option Request
unfolding topic_path
request_of prefix e = elim e.content [
  | command_request path payload ↦ some record {
    topic = topic_path prefix path [];
    payload = payload;
    correlation_data = some (to_bytes_be 8 e.sequence_id);
    response_topic = some (codes "cloud");
  }
  | command_response status payload ↦ none
  | telemetry report ↦ none
  | event kind severity description ↦ none
  | pong ↦ none
]

-- The envelope of `_send_cloud_event`, less its time.
unfoldable pub event_envelope : Text → Text → Text → Text → Envelope
event_envelope device_id kind severity description = record {
  protocol_version = 2;
  device_id = device_id;
  sequence_id = 0;
  content = event kind severity description;
}
