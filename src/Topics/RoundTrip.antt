-- ===== src/Topics/RoundTrip.antt =====
-- `parse_topic` against `topic_path`.
use arduino_yun_bridge.Base.{
  ◌≡◌, refl, sym, ap, ◌∙◌, true, false, some, List, [], ◌∷◌, ◌++◌, arith, Text, text_eq,
  text_eq_refl, text_eq_iff, is_empty, any, All, Bool-cases, Option-cases, inl, inr,
}
use arduino_yun_bridge.Topics.{
  split, segments_of, join, topic_path, topics, is_topic, TopicRoute, behind, parse_topic,
}
use arduino_yun_bridge.Topics.Segments.{IsClean, segments_of_all, segments_of-topic_path}

any-IsClean :
    (name : Text) (ts : List Text)
    → All IsClean ts
    → any (λ t. text_eq t name) ts ≡ true
    → IsClean name
any-IsClean name [] clean h = absurd (ground arith)
any-IsClean name (t ∷ ts) (clean, rest) h = elim (Bool-cases (text_eq t name)) [
  | inl same ↦ rw (sym ((text_eq_iff t name).0 same)) clean
  | inr other ↦ any-IsClean name ts rest (ground (arith, other))
]

topics-IsClean : All IsClean topics
unfolding split
topics-IsClean = (
  (refl, refl),
  (
    (refl, refl),
    (
      (refl, refl),
      (
        (refl, refl),
        (
          (refl, refl),
          ((refl, refl), ((refl, refl), ((refl, refl), ((refl, refl), ((refl, refl), tt))))),
        ),
      ),
    ),
  ),
)

clean_segments : (segs : List Text) → All IsClean segs → segments_of_all segs ≡ segs
clean_segments [] clean = refl
clean_segments (s ∷ segs) ((full, one), rest) = rw (one, clean_segments segs rest) refl

behind-append : (ps segs : List Text) → behind ps (ps ++ segs) ≡ some segs
unfolding behind
behind-append [] segs = refl
behind-append (p ∷ ps) segs = rw (text_eq_refl p, behind-append ps segs) refl

-- What `behind` skips is the prefix.
behind_inv :
    (ps segs : List Text) {rest : List Text} → behind ps segs ≡ some rest → segs ≡ ps ++ rest
unfolding behind
behind_inv [] segs h = ground arith
behind_inv (p ∷ ps) [] h = absurd (ground arith)
behind_inv (p ∷ ps) (s ∷ segs) {rest} h =
    ground (arith, text_eq_iff p s, λ (e : behind ps segs ≡ some rest). behind_inv ps segs e)

full_path :
    (path : Text) (t : Text) (ps segs : List Text)
    → segments_of path ≡ ps ++ (t ∷ segs)
    → is_empty path ≡ false
unfolding split
full_path [] t [] segs h = absurd (ground arith)
full_path [] t (p ∷ ps) segs h = absurd (ground arith)
full_path (c ∷ cs) t ps segs h = refl

-- A path built from a prefix, a service topic and clean segments parses back to them under the same
-- prefix, however many slashes stand around or inside the prefix.
pub parse-topic_path :
    (prefix topic : Text) (segs : List Text)
    → is_empty prefix ≡ false
    → is_topic topic ≡ true
    → All IsClean segs
    → parse_topic prefix (topic_path prefix topic segs)
      ≡ some record {
        raw = topic_path prefix topic segs;
        prefix = join (segments_of prefix);
        topic = topic;
        segments = segs;
      }
parse-topic_path prefix topic segs full known clean =
    let path = topic_path prefix topic segs in
    let topic_clean : IsClean topic =
      unfold is_topic in any-IsClean topic topics topics-IsClean known in
    let parts : segments_of path ≡ segments_of prefix ++ (topic ∷ segs) =
      segments_of-topic_path prefix topic segs
      ∙ ap (λ r. segments_of prefix ++ r) (clean_segments (topic ∷ segs) (topic_clean, clean)) in
    unfold parse_topic in
    rw
      (
        full_path path topic (segments_of prefix) segs parts,
        full,
        parts,
        behind-append (segments_of prefix) (topic ∷ segs),
        known,
      )
      refl

-- A topic that parses consists of the segments of the prefix, a service topic of the enum, and the
-- segments of the route, in this order; the route keeps the topic as it came.
pub parse_topic_lem :
    (prefix name : Text) (r : TopicRoute)
    → parse_topic prefix name ≡ some r
    → (segments_of name ≡ segments_of prefix ++ (r.topic ∷ r.segments))
      × (is_topic r.topic ≡ true)
      × (r.raw ≡ name)
parse_topic_lem prefix name r h =
    elim (Option-cases (behind (segments_of prefix) (segments_of name))) [
      | inl e ↦ absurd (unfold parse_topic in ground (arith, e))
      | inr (rest, e) ↦
          let parts = behind_inv (segments_of prefix) (segments_of name) e in
          unfold parse_topic in ground (arith, e, parts)
    ]
