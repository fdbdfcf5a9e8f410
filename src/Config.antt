-- ===== src/Config.antt =====
-- The policy of commands in mcubridge/mcubridge/protocol/structures.py: `create_allowed_policy` and
-- `is_command_allowed`, with `str.split` on blanks, `str.lower` and `fnmatch` of Python, on ASCII. What a
-- set in brackets matches is a parameter.
mod Policy
pub mod Validate
pub mod Coerce
pub mod Load
mod Tests
use arduino_yun_bridge.Base.{
  zero, suc, length, length, ℕ, ◌+◌, Bool, true, false, ◌&&◌, ◌||◌, not, Option, none, some, List,
  [], ◌∷◌, ◌++◌, map, leb, ltb, ◌==◌, if◌then◌else◌, Text, codes, text_eq, is_empty, any,
  lower_char,
}

-- The blanks of `\s` and `str.split`.
abbrev pub is_blank : ℕ → Bool
is_blank c = (leb 9 c && leb c 13) || (leb 28 c && leb c 32)

-- The parts of a text between the characters that `sep` holds for, the first one apart.
abbrev pub parts : (ℕ → Bool) → Text → Text × List Text
parts sep [] = ([], [])
parts sep (c ∷ cs) =
    let (first, rest) = parts sep cs in if sep c then ([], first ∷ rest) else (c ∷ first, rest)

abbrev full_parts : List Text → List Text
full_parts [] = []
full_parts (t ∷ ts) = if is_empty t then full_parts ts else t ∷ full_parts ts

-- The parts that are not empty: runs of separators count as one, and so do those at the ends.
abbrev pub words : (ℕ → Bool) → Text → List Text
words sep t = full_parts ((parts sep t).0 ∷ (parts sep t).1)

abbrev pub lower : Text → Text
lower t = map lower_char t

-- `_TOKEN_SEP`
abbrev is_separator : ℕ → Bool
is_separator c = (c == b',') || is_blank c

-- The tokens of all entries.
abbrev pub tokens : List Text → List Text
tokens [] = []
tokens (c ∷ cs) = words is_separator (lower c) ++ tokens cs

-- The order of texts.
abbrev pub before : Text → Text → Bool
before [] [] = false
before [] (d ∷ t) = true
before (c ∷ s) [] = false
before (c ∷ s) (d ∷ t) = ltb c d || ((c == d) && before s t)

abbrev pub insert_sorted : Text → List Text → List Text
insert_sorted t [] = t ∷ []
insert_sorted t (u ∷ us) =
    let rest = insert_sorted t us in
    if text_eq t u then u ∷ us else if before t u then t ∷ u ∷ us else u ∷ rest

-- `sorted(set(...))`
abbrev pub sort_set : List Text → List Text
sort_set [] = []
sort_set (t ∷ ts) = insert_sorted t (sort_set ts)

abbrev pub has : Text → List Text → Bool
has t ts = any (λ u. text_eq u t) ts

unfoldable pub create_allowed_policy : List Text → List Text
create_allowed_policy entries =
    if has (codes "*") (tokens entries) then codes "*" ∷ [] else sort_set (tokens entries)

-- A pattern: "*", "?", a set in brackets, or a character.
pub data Piece : Type 0 where
  any_run any_one : Piece
  one_of : Text → Piece
  literal : ℕ → Piece

-- The text up to the next "]", and what follows it.
abbrev up_to_bracket : Text → Option (Text × Text)
up_to_bracket [] = none
up_to_bracket (c ∷ cs) =
    let rest = up_to_bracket cs in
    if c == b']' then some ([], cs) else elim rest [ none ↦ none | some r ↦ some (c ∷ r.0, r.1) ]

abbrev after_first : Option (Text × Text) → Text → Option (Text × Text)
after_first none front = none
after_first (some (inside, rest)) front = some (front ++ inside, rest)

-- A "]" directly behind "[" or "[!" does not end the set.
abbrev set_after_mark : Text → Text → Option (Text × Text)
set_after_mark front [] = none
set_after_mark front (c ∷ cs) =
    if c == b']'
    then after_first (up_to_bracket cs) (front ++ (c ∷ []))
    else after_first (up_to_bracket (c ∷ cs)) front

abbrev bracket_set : Text → Option (Text × Text)
bracket_set [] = none
bracket_set (c ∷ cs) = if c == b'!' then set_after_mark (c ∷ []) cs else set_after_mark [] (c ∷ cs)

-- On fuel: the length of the pattern is enough.
abbrev pieces_from : ℕ → Text → List Piece
pieces_from zero p = []
pieces_from (suc left) [] = []
pieces_from (suc left) (c ∷ cs) =
    let rest = pieces_from left cs in
    if c == b'*'
    then any_run ∷ rest
    else if c == b'?'
    then any_one ∷ rest
    else if c == b'['
    then elim (bracket_set cs) [
      | none ↦ literal c ∷ rest
      | some r ↦ one_of r.0 ∷ pieces_from left r.1
    ]
    else literal c ∷ rest

unfoldable pub pieces : Text → List Piece
pieces p = pieces_from (length p) p

abbrev pub star : (Text → Bool) → Text → Bool
star f [] = f []
star f (c ∷ s) = let rest = star f s in f (c ∷ s) || rest

module _ (in_set : Text → ℕ → Bool) where
  unfoldable pub matches : List Piece → Text → Bool
  matches [] s = is_empty s
  matches (any_run ∷ ps) s = star (λ t. matches ps t) s
  matches (any_one ∷ ps) [] = false
  matches (any_one ∷ ps) (c ∷ s) = matches ps s
  matches (one_of cs ∷ ps) [] = false
  matches (one_of cs ∷ ps) (c ∷ s) = let rest = matches ps s in in_set cs c && rest
  matches (literal d ∷ ps) [] = false
  matches (literal d ∷ ps) (c ∷ s) = let rest = matches ps s in (c == d) && rest

  -- `fnmatch.fnmatch(name, pattern)`
  abbrev pub fnmatch : Text → Text → Bool
  fnmatch name pattern' = matches (pieces pattern') name

  abbrev pub allows_first : List Text → List Text → Bool
  allows_first entries [] = false
  allows_first entries (name ∷ rest) =
      has (codes "*") entries || any (λ p. fnmatch (lower name) p) entries

  unfoldable pub is_command_allowed : List Text → Text → Bool
  unfolding matches pieces
  is_command_allowed entries command = allows_first entries (words is_blank command)
