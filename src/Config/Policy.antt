-- ===== src/Config/Policy.antt =====
-- What a policy of plain names allows.
use arduino_yun_bridge.Base.{
  if◌then◌else◌, ℕ, ◌≡◌, refl, ap, ◌∙◌, Bool, true, false, ◌&&◌, ◌||◌, not, List, [], ◌∷◌, map,
  arith, ◌==◌, Text, codes, text_eq, text_eq_iff, any, All, length,
}
use arduino_yun_bridge.Config.{
  before, allows_first, is_blank, words, lower, tokens, insert_sorted, sort_set, has,
  create_allowed_policy, literal, pieces, pieces_from, matches, fnmatch, is_command_allowed,
}

abbrev pub is_plain_char : ℕ → Bool
is_plain_char c = not ((c == b'*') || (c == b'?') || (c == b'['))

-- No character of the text means anything to `fnmatch`.
abbrev pub IsPlain : Text → Type 0
IsPlain t = All (λ c. is_plain_char c ≡ true) t

pieces_from_plain : (p : Text) → IsPlain p → pieces_from (length p) p ≡ map literal p
pieces_from_plain [] plain = refl
pieces_from_plain (c ∷ cs) (first, plain) =
    let rest = pieces_from_plain cs plain in ground (arith, first, rest)

pieces_plain : (p : Text) → IsPlain p → pieces p ≡ map literal p
unfolding pieces
pieces_plain p plain = pieces_from_plain p plain

any_cons :
    (f g : Text → Bool) (p : Text) (ps : List Text)
    → f p ≡ g p
    → any f ps ≡ any g ps
    → any f (p ∷ ps) ≡ any g (p ∷ ps)
any_cons f g p ps first rest = ground (arith, first, rest)

text_eq_sym : (s t : Text) → text_eq s t ≡ text_eq t s
text_eq_sym [] [] = refl
text_eq_sym [] (d ∷ t) = refl
text_eq_sym (c ∷ s) [] = refl
text_eq_sym (c ∷ s) (d ∷ t) = ground (arith, text_eq_sym s t)

module _ (in_set : Text → ℕ → Bool) where
  matches_literal : (p s : Text) → matches in_set (map literal p) s ≡ text_eq s p
  unfolding matches
  matches_literal [] [] = refl
  matches_literal [] (c ∷ s) = refl
  matches_literal (d ∷ p) [] = refl
  matches_literal (d ∷ p) (c ∷ s) = ap (λ b. (c == d) && b) (matches_literal p s)

  fnmatch_plain : (name p : Text) → IsPlain p → fnmatch in_set name p ≡ text_eq p name
  fnmatch_plain name p plain =
      ap (λ ps. matches in_set ps name) (pieces_plain p plain)
      ∙ matches_literal p name
      ∙ text_eq_sym name p

  any_plain :
      (name : Text) (ps : List Text)
      → All IsPlain ps
      → any (λ p. fnmatch in_set name p) ps ≡ has name ps
  any_plain name [] plain = refl
  any_plain name (p ∷ ps) (first, plain) =
      any_cons (λ p. fnmatch in_set name p) (λ p. text_eq p name) p ps (fnmatch_plain name p first)
        (any_plain name ps plain)

has-insert_sorted :
    (x t : Text) (us : List Text) → has x (insert_sorted t us) ≡ (text_eq t x || has x us)
has-insert_sorted x t [] = ground arith
has-insert_sorted x t (u ∷ us) = ground (arith, text_eq_iff t u, has-insert_sorted x t us)

has-sort_set : (x : Text) (ts : List Text) → has x (sort_set ts) ≡ has x ts
has-sort_set x [] = refl
has-sort_set x (t ∷ ts) =
    has-insert_sorted x t (sort_set ts)
    ∙ ap (λ b. text_eq t x || b) (has-sort_set x ts)
    ∙ ground arith

IsPlain-if :
    (b : Bool) (xs ys : List Text)
    → All IsPlain xs
    → All IsPlain ys
    → All IsPlain (if b then xs else ys)
IsPlain-if true xs ys px py = px
IsPlain-if false xs ys px py = py

insert_sorted-IsPlain :
    (t : Text) (us : List Text) → IsPlain t → All IsPlain us → All IsPlain (insert_sorted t us)
insert_sorted-IsPlain t [] plain all = (plain, tt)
insert_sorted-IsPlain t (u ∷ us) plain (first, all) =
    IsPlain-if (text_eq t u) (u ∷ us) (if before t u then t ∷ u ∷ us else u ∷ insert_sorted t us)
      (first, all)
      (IsPlain-if (before t u) (t ∷ u ∷ us) (u ∷ insert_sorted t us) (plain, (first, all))
        (first, insert_sorted-IsPlain t us plain all))

sort_set-IsPlain : (ts : List Text) → All IsPlain ts → All IsPlain (sort_set ts)
sort_set-IsPlain [] all = tt
sort_set-IsPlain (t ∷ ts) (first, all) =
    insert_sorted-IsPlain t (sort_set ts) first (sort_set-IsPlain ts all)

-- A plain text is not the wildcard.
no_wildcard : (ts : List Text) → All IsPlain ts → has (codes "*") ts ≡ false
no_wildcard [] all = refl
no_wildcard ([] ∷ ts) (first, all) = no_wildcard ts all
no_wildcard ((c ∷ t) ∷ ts) (first, all) =
    let rest = no_wildcard ts all in let head = first.0 in ground (arith, rest, head)

policy_plain :
    (entries : List Text)
    → All IsPlain (tokens entries)
    → create_allowed_policy entries ≡ sort_set (tokens entries)
unfolding create_allowed_policy
policy_plain entries all =
    if_false (has (codes "*") (tokens entries)) (no_wildcard (tokens entries) all)
  where
    if_false :
        (b : Bool)
        → b ≡ false
        → (if b then codes "*" ∷ [] else sort_set (tokens entries)) ≡ sort_set (tokens entries)
    if_false true e = absurd (ground arith)
    if_false false e = refl

-- Where no entry of the configuration has a token with a character that means something to `fnmatch`, a
-- command with a name is allowed exactly if its first word, in lower case, is one of the tokens.
pub is_command_allowed_lem :
    (in_set : Text → ℕ → Bool) (entries : List Text) (command name : Text) (rest : List Text)
    → All IsPlain (tokens entries)
    → words is_blank command ≡ name ∷ rest
    → is_command_allowed in_set (create_allowed_policy entries) command
      ≡ has (lower name) (tokens entries)
unfolding is_command_allowed
is_command_allowed_lem in_set entries command name rest all split =
    ap (λ ws. allows_first in_set (create_allowed_policy entries) ws) split
    ∙ ap (λ es. allows_first in_set es (name ∷ rest)) (policy_plain entries all)
    ∙ ap (λ b. b || any (λ p. fnmatch in_set (lower name) p) (sort_set (tokens entries)))
        (no_wildcard (sort_set (tokens entries)) (sort_set-IsPlain (tokens entries) all))
    ∙ any_plain in_set (lower name) (sort_set (tokens entries))
        (sort_set-IsPlain (tokens entries) all)
    ∙ has-sort_set (lower name) (tokens entries)
