-- ===== src/Protocol/Tables.antt =====
-- The two tables of tools/protocol/generate.py, for any list of commands.
use arduino_yun_bridge.Base.{
  ◌^◌, ◌%◌, ◌≤◌, ℕ, ◌≡◌, refl, ◌↔◌, Bool, true, false, ◌&&◌, ◌||◌, none, some, List, [], ◌∷◌, ◌++◌,
  arith, if◌then◌else◌, Text, text_eq, text_eq_iff, any, Option-cases, inl, inr,
}
use arduino_yun_bridge.Base.Assoc.{lookup, insert, lookup-insert, text_key}
use arduino_yun_bridge.Protocol.Command.{CommandDef}
use arduino_yun_bridge.Protocol.{
  is_system_command, request_of, has_name, append_to, req_resp_loop, build_req_resp_map,
  resp_to_req_loop, build_resp_to_req_map,
}

-- The response `r` stands in the row of the request `q`.
abbrev pub listed : Text → Text → List (Text × List Text) → Bool
listed r q pairs = elim (lookup q pairs) [ none ↦ false | some ns ↦ any (λ n. text_eq n r) ns ]

abbrev answers : List CommandDef → Text → Text → Bool
answers spec r q = elim (request_of spec r) [ none ↦ false | some p ↦ text_eq p q ]

any-snoc :
    (r : Text) (ns : List Text) (v : Text)
    → any (λ n. text_eq n r) (ns ++ (v ∷ [])) ≡ (any (λ n. text_eq n r) ns || text_eq v r)
any-snoc r [] v = ground arith
any-snoc r (n ∷ ns) v = ground (arith, any-snoc r ns v)

listed-append_to :
    (r q k v : Text) (m : List (Text × List Text))
    → listed r q (append_to k v m) ≡ ((text_eq k q && text_eq v r) || listed r q m)
unfolding append_to
listed-append_to r q k v m = elim (Option-cases (lookup k m)) [
  | inl e ↦ ground (arith, e, text_eq_iff k q, lookup-insert k q (v ∷ []) m)
  | inr (vs, e) ↦
      ground (arith, e, text_eq_iff k q, lookup-insert k q (vs ++ (v ∷ [])) m, any-snoc r vs v)
]

lookup-resp_to_req_loop :
    (spec : List CommandDef) (r : Text) (reverse : List (Text × Text)) (cs : List CommandDef)
    → lookup r (resp_to_req_loop spec reverse cs) ≡ (
        if has_name cs r
        then elim (request_of spec r) [ none ↦ lookup r reverse | some q ↦ some q ]
        else lookup r reverse)
unfolding resp_to_req_loop
lookup-resp_to_req_loop spec r reverse [] = refl
lookup-resp_to_req_loop spec r reverse (c ∷ cs) = elim (Option-cases (request_of spec c.name)) [
  | inl e ↦ ground (arith, e, text_eq_iff c.name r, lookup-resp_to_req_loop spec r reverse cs)
  | inr (p, e) ↦ ground (
    arith,
    e,
    text_eq_iff c.name r,
    lookup-insert c.name r p reverse,
    lookup-resp_to_req_loop spec r (insert c.name p reverse) cs,
  )
]

listed-req_resp_loop :
    (spec : List CommandDef) (r q : Text) (pairs : List (Text × List Text)) (cs : List CommandDef)
    → listed r q (req_resp_loop spec pairs cs)
      ≡ ((has_name cs r && answers spec r q) || listed r q pairs)
unfolding req_resp_loop
listed-req_resp_loop spec r q pairs [] = refl
listed-req_resp_loop spec r q pairs (c ∷ cs) = elim (Option-cases (request_of spec c.name)) [
  | inl e ↦ ground (arith, e, text_eq_iff c.name r, listed-req_resp_loop spec r q pairs cs)
  | inr (p, e) ↦ ground (
    arith,
    e,
    text_eq_iff c.name r,
    listed-append_to r q p c.name pairs,
    listed-req_resp_loop spec r q (append_to p c.name pairs) cs,
  )
]

-- For every list of commands, the request-to-responses table lists the response `r` under the request
-- `q` exactly when the response-to-request table sends `r` to `q`.
pub tables_agree :
    (spec : List CommandDef) (r q : Text)
    → (listed r q (build_req_resp_map spec) ≡ true)
      ↔ (lookup r (build_resp_to_req_map spec) ≡ some q)
unfolding build_req_resp_map build_resp_to_req_map
tables_agree spec r q = elim (Option-cases (request_of spec r)) [
  | inl e ↦ ground (arith, e, at_lookup, at_listed)
  | inr (p, e) ↦ ground (arith, e, at_lookup, at_listed, text_eq_iff p q)
]
  where
    at_lookup : lookup r (resp_to_req_loop spec [] spec) ≡ (
        if has_name spec r
        then elim (request_of spec r) [ none ↦ none | some q ↦ some q ]
        else none)
    at_lookup = unfold lookup in lookup-resp_to_req_loop spec r [] spec

    at_listed :
        listed r q (req_resp_loop spec [] spec) ≡ ((has_name spec r && answers spec r q) || false)
    at_listed = unfold lookup in listed-req_resp_loop spec r q [] spec

-- A command is exempt from encryption and from the replay check exactly if the low 16 bits of its id
-- lie from 48 to 79: the ranges of the status codes and of the system commands meet.
pub exempt_iff :
    (command_id : ℕ)
    → (is_system_command command_id ≡ true)
      ↔ ((48 ≤ command_id % 2 ^ 16) × (command_id % 2 ^ 16 ≤ 79))
unfolding is_system_command
exempt_iff command_id = ground arith
