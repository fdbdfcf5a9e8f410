-- ===== src/Topics.antt =====
-- mcubridge/mcubridge/protocol/topics.py: the paths of cloud topics, and their parser. A text is the
-- list of its characters; `str.split`, `str.strip` and `posixpath.join` are written out for "/".
mod Segments
mod RoundTrip
mod Tests
use arduino_yun_bridge.Base.{
  ℕ, Bool, true, false, ◌||◌, not, Option, none, some, List, [], ◌∷◌, ◌++◌, map, leb, ◌==◌,
  if◌then◌else◌, Text, codes, text_eq, length, take, drop, is_empty, any, filter,
}

-- The code of "/".
abbrev pub slash : ℕ
slash = 47

-- `t.split("/")`: the first part, and the others
unfoldable pub split : Text → Text × List Text
split [] = ([], [])
split (c ∷ cs) =
    let (first, rest) = split cs in if c == slash then ([], first ∷ rest) else (c ∷ first, rest)

abbrev pub nonempty : List Text → List Text
nonempty ts = filter (λ t. not (is_empty t)) ts

-- `tuple(filter(None, t.split("/")))`
abbrev pub segments_of : Text → List Text
segments_of t = nonempty ((split t).0 ∷ (split t).1)

unfoldable pub lstrip : Text → Text
lstrip [] = []
lstrip (c ∷ cs) = let rest = lstrip cs in if c == slash then rest else c ∷ cs

unfoldable pub rstrip : Text → Text
rstrip [] = []
rstrip (c ∷ cs) =
    let rest = rstrip cs in
    if c == slash then elim rest [ [] ↦ [] | d ∷ ds ↦ c ∷ d ∷ ds ] else c ∷ rest

-- `s.strip("/")`
abbrev pub strip : Text → Text
strip t = rstrip (lstrip t)

-- `posixpath.join(*parts)`: no part starts or ends with a slash
unfoldable pub join : List Text → Text
join [] = []
join (p ∷ []) = p
join (p ∷ q ∷ rest) = p ++ (slash ∷ join (q ∷ rest))

-- The segments are texts already: `str` of an integer is up to the caller.
unfoldable pub topic_path : Text → Text → List Text → Text
unfolding join
topic_path prefix topic segments = join (nonempty (map strip (prefix ∷ topic ∷ segments)))

-- The values of the enum Topic.
abbrev pub topics : List Text
topics =
    codes "a"
    ∷ codes "console"
    ∷ codes "datastore"
    ∷ codes "d"
    ∷ codes "file"
    ∷ codes "mailbox"
    ∷ codes "sh"
    ∷ codes "spi"
    ∷ codes "status"
    ∷ codes "system"
    ∷ []

-- `Topic(name)` does not raise
unfoldable pub is_topic : Text → Bool
is_topic name = any (λ t. text_eq t name) topics

-- `TopicRoute`
pub record TopicRoute : Type 0 where
  pub raw : Text
  pub prefix : Text
  pub topic : Text
  pub segments : List Text

-- `segs[:len(prefix)] == prefix`, and what follows it
unfoldable pub behind : List Text → List Text → Option (List Text)
behind [] segs = some segs
behind (p ∷ ps) [] = none
behind (p ∷ ps) (s ∷ segs) = let rest = behind ps segs in if text_eq p s then rest else none

-- The service topic and the segments behind it.
abbrev route : Text → List Text → Option (List Text) → Option TopicRoute
route raw prefix_segs none = none
route raw prefix_segs (some []) = none
route raw prefix_segs (some (name ∷ segs)) =
    if is_topic name
    then some record { raw = raw; prefix = join prefix_segs; topic = name; segments = segs }
    else none

unfoldable pub parse_topic : Text → Text → Option TopicRoute
unfolding behind join
parse_topic prefix topic_name =
    if is_empty topic_name || is_empty prefix
    then none
    else route topic_name (segments_of prefix)
        (behind (segments_of prefix) (segments_of topic_name))
