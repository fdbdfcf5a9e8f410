-- ===== src/Metrics/Reports.antt =====
-- Which field of the telemetry a message goes to.
use arduino_yun_bridge.Base.{
  ◌||◌, Bool, ◌∙◌, ap, ◌∙◌, ap, arith, contains_text, true, ◌++◌, codes, ◌≡◌, starts_with, Text,
  Bytes, [], ◌∷◌, refl,
}
use arduino_yun_bridge.Topics.{lstrip, rstrip, join}
use arduino_yun_bridge.Cloud.{Publish}
use arduino_yun_bridge.Cloud.Context.{
  daemon_metrics_blob, bridge_snapshot_blob, handshake_snapshot_blob, telemetry_of,
}
use arduino_yun_bridge.Metrics.{
  Metrics, handshake, summary, build_metrics_message, build_bridge_snapshot_message,
}

-- Under the default prefix, the report of the metrics, that of the bridge and that of the handshake go
-- to their own fields of the telemetry, with the snapshot for their contents.
pub reports_in_their_fields :
    (s : Metrics) (printed : Bytes)
    → s.cloud_topic_prefix ≡ codes "br"
    → (telemetry_of (build_metrics_message s printed) ≡ daemon_metrics_blob printed)
      × (telemetry_of (build_bridge_snapshot_message s summary printed)
          ≡ bridge_snapshot_blob printed)
      × (telemetry_of (build_bridge_snapshot_message s handshake printed)
          ≡ handshake_snapshot_blob printed)
unfolding telemetry_of build_metrics_message build_bridge_snapshot_message lstrip rstrip join
reports_in_their_fields s printed e = rw e (refl, refl, refl)

starts_with-append : (p ys : Text) → starts_with p (p ++ ys) ≡ true
starts_with-append [] ys = refl
starts_with-append (c ∷ p) ys = ground (arith, starts_with-append p ys)

or_left : (a b : Bool) → a ≡ true → (a || b) ≡ true
or_left a b h = ground (arith, h)

or_right : (a b : Bool) → b ≡ true → (a || b) ≡ true
or_right a b h = ground (arith, h)

contains_here : (p s : Text) → starts_with p s ≡ true → contains_text p s ≡ true
contains_here p [] h = h
contains_here p (c ∷ s) h = or_left (starts_with p (c ∷ s)) (contains_text p s) h

contains_middle :
    (xs p ys : Text) → starts_with p (p ++ ys) ≡ true → contains_text p (xs ++ (p ++ ys)) ≡ true
contains_middle [] p ys h = contains_here p (p ++ ys) h
contains_middle (x ∷ xs) p ys h =
    or_right (starts_with p (x ∷ (xs ++ (p ++ ys)))) (contains_text p (xs ++ (p ++ ys)))
      (contains_middle xs p ys h)

-- A message with "metrics" anywhere in its topic, such as the value of a datastore key "metrics", goes to
-- the field of the daemon's metrics.
pub taken_for_metrics :
    (before after : Text) (m : Publish)
    → m.topic_name ≡ before ++ (codes "metrics" ++ after)
    → telemetry_of m ≡ daemon_metrics_blob m.payload
unfolding telemetry_of
taken_for_metrics before after m e =
    let found =
      contains_middle before (codes "metrics") after (starts_with-append (codes "metrics") after) in
    let here : contains_text (codes "metrics") m.topic_name ≡ true =
      ap (contains_text (codes "metrics")) e ∙ found in
    rw here refl
