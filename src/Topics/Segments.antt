-- ===== src/Topics/Segments.antt =====
-- The segments of stripped and of joined texts.
use arduino_yun_bridge.Base.{
  ℕ, ◌≡◌, refl, sym, ap, ◌∙◌, true, false, List, [], ◌∷◌, ◌++◌, map, arith, ◌==◌, Text, is_empty,
  Bool-cases, inl, inr,
}
use mathlib.Core.List.{append-nil}
use arduino_yun_bridge.Topics.{
  slash, split, nonempty, segments_of, lstrip, rstrip, strip, join, topic_path,
}

-- A part without a slash and not empty.
abbrev pub IsClean : Text → Type 0
IsClean t = (is_empty t ≡ false) × (segments_of t ≡ t ∷ [])

nonempty-append : (xs ys : List Text) → nonempty (xs ++ ys) ≡ nonempty xs ++ nonempty ys
nonempty-append [] ys = refl
nonempty-append ([] ∷ xs) ys = nonempty-append xs ys
nonempty-append ((c ∷ cs) ∷ xs) ys = ap (λ r. (c ∷ cs) ∷ r) (nonempty-append xs ys)

split-append :
    (a b : Text)
    → split (a ++ (slash ∷ b)) ≡ ((split a).0, (split a).1 ++ ((split b).0 ∷ (split b).1))
unfolding split
split-append [] b = refl
split-append (c ∷ cs) b = ground (arith, split-append cs b)

pub segments_of-append :
    (a b : Text) → segments_of (a ++ (slash ∷ b)) ≡ segments_of a ++ segments_of b
segments_of-append a b =
    rw (split-append a b) (nonempty-append ((split a).0 ∷ (split a).1) ((split b).0 ∷ (split b).1))

segments_of-lstrip : (t : Text) → segments_of (lstrip t) ≡ segments_of t
unfolding lstrip split
segments_of-lstrip [] = refl
segments_of-lstrip (c ∷ cs) = ground (arith, segments_of-lstrip cs)

nonempty_cons :
    {x y : Text} (xs ys : List Text)
    → x ≡ y
    → nonempty xs ≡ nonempty ys
    → nonempty (x ∷ xs) ≡ nonempty (y ∷ ys)
nonempty_cons {x = []} {y = []} xs ys e es = es
nonempty_cons {x = []} {y = c ∷ cs} xs ys e es = absurd (ground arith)
nonempty_cons {x = c ∷ cs} {y = []} xs ys e es = absurd (ground arith)
nonempty_cons {x = c ∷ cs} {y = d ∷ ds} xs ys e es = λ i. e i ∷ es i

-- The same parts, but for empty ones behind the first.
abbrev SameParts : Text → Text → Type 0
SameParts s t = ((split s).0 ≡ (split t).0) × (nonempty (split s).1 ≡ nonempty (split t).1)

SameParts-slash :
    (c : ℕ) (r cs : Text)
    → (c == slash) ≡ true
    → SameParts r cs
    → SameParts (elim r [ [] ↦ [] | d ∷ ds ↦ c ∷ d ∷ ds ]) (c ∷ cs)
unfolding split
SameParts-slash c [] cs is (first, rest) = rw is (refl, nonempty_cons [] (split cs).1 first rest)
SameParts-slash c (d ∷ ds) cs is (first, rest) =
    rw is (refl, nonempty_cons (split (d ∷ ds)).1 (split cs).1 first rest)

SameParts-cons :
    (c : ℕ) (r cs : Text) → (c == slash) ≡ false → SameParts r cs → SameParts (c ∷ r) (c ∷ cs)
unfolding split
SameParts-cons c r cs other (first, rest) = rw other (ap (λ x. c ∷ x) first, rest)

SameParts-rstrip : (t : Text) → SameParts (rstrip t) t
unfolding rstrip
SameParts-rstrip [] = (refl, refl)
SameParts-rstrip (c ∷ cs) = elim (Bool-cases (c == slash)) [
  | inl is ↦ rw is (SameParts-slash c (rstrip cs) cs is (SameParts-rstrip cs))
  | inr other ↦ rw other (SameParts-cons c (rstrip cs) cs other (SameParts-rstrip cs))
]

pub segments_of-strip : (t : Text) → segments_of (strip t) ≡ segments_of t
segments_of-strip t =
    let (first, rest) = SameParts-rstrip (lstrip t) in
    nonempty_cons (split (rstrip (lstrip t))).1 (split (lstrip t)).1 first rest
    ∙ segments_of-lstrip t

abbrev concat : List (List Text) → List Text
concat [] = []
concat (xs ∷ xss) = xs ++ concat xss

-- The segments of the parts, one part after the other.
abbrev pub segments_of_all : List Text → List Text
segments_of_all ts = concat (map segments_of ts)

pub segments_of-join : (ts : List Text) → segments_of (join ts) ≡ segments_of_all ts
unfolding join
segments_of-join [] = unfold split in refl
segments_of-join (p ∷ []) = sym (append-nil (segments_of p))
segments_of-join (p ∷ q ∷ rest) =
    segments_of-append p (join (q ∷ rest))
    ∙ ap (λ r. segments_of p ++ r) (segments_of-join (q ∷ rest))

segments_of_all-nonempty : (ts : List Text) → segments_of_all (nonempty ts) ≡ segments_of_all ts
unfolding split
segments_of_all-nonempty [] = refl
segments_of_all-nonempty ([] ∷ ts) = segments_of_all-nonempty ts
segments_of_all-nonempty ((c ∷ cs) ∷ ts) =
    ap (λ r. segments_of (c ∷ cs) ++ r) (segments_of_all-nonempty ts)

segments_of_all-strip : (ts : List Text) → segments_of_all (map strip ts) ≡ segments_of_all ts
segments_of_all-strip [] = refl
segments_of_all-strip (t ∷ ts) = λ i. segments_of-strip t i ++ segments_of_all-strip ts i

-- A path has the segments of its arguments, in their order.
pub segments_of-topic_path :
    (prefix topic : Text) (segments : List Text)
    → segments_of (topic_path prefix topic segments) ≡ segments_of_all (prefix ∷ topic ∷ segments)
unfolding topic_path
segments_of-topic_path prefix topic segments =
    segments_of-join (nonempty (map strip (prefix ∷ topic ∷ segments)))
    ∙ segments_of_all-nonempty (map strip (prefix ∷ topic ∷ segments))
    ∙ segments_of_all-strip (prefix ∷ topic ∷ segments)
