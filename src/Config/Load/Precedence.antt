-- ===== src/Config/Load/Precedence.antt =====
-- Where a value of the configuration comes from.
use arduino_yun_bridge.Base.{
  is_empty, if◌then◌else◌, ◌||◌, true, codes, not, starts_with, filter, Bool, false, arith, ◌≡◌,
  text_eq, List, Text, Option, sym, ap, ◌∙◌, Bool-cases, text_eq→eq, text_eq_refl, none, some, [],
  ◌∷◌, refl, inl, inr,
}
use arduino_yun_bridge.Base.Assoc.{lookup, lookup-insert, text_key}
use arduino_yun_bridge.Config.Coerce.{Value}
use arduino_yun_bridge.Config.Load.{
  Source, from_defaults, from_uci, from_cli, from_uci, raw_values, get_uci_config, load_raw_config,
  unless_present, update, fill,
}

abbrev pub or_else {ℓ} : {A : Type ℓ} → Option A → Option A → Option A
or_else none o = o
or_else (some a) o = some a

-- The keys that UCI keeps for itself.
abbrev pub is_internal : Text → Bool
is_internal k = starts_with (codes ".") k || starts_with (codes "_") k

module _ {F : Type 0} where
  lookup-update :
      (k : Text) (d e : List (Text × Value F))
      → lookup k (update d e) ≡ or_else (lookup k e) (lookup k d)
  unfolding lookup update
  lookup-update k d [] = refl
  lookup-update k d ((j, v) ∷ e) = elim (Bool-cases (text_eq j k)) [
    | inl here ↦ rw (lookup-insert j k v (update d e), here) refl
    | inr there ↦ rw (lookup-insert j k v (update d e), there) (lookup-update k d e)
  ]

  present :
      (k : Text) (v w : Value F) (rest : List (Text × Value F)) (o : Option (Value F))
      → o ≡ some w
      → unless_present o k v rest ≡ rest
  present k v w rest none e = absurd (ground (arith, e))
  present k v w rest (some x) e = refl

  lookup-unless :
      (k j : Text) (v : Value F) (rest : List (Text × Value F)) (o : Option (Value F))
      → text_eq j k ≡ false
      → lookup k (unless_present o j v rest) ≡ lookup k rest
  lookup-unless k j v rest none there = rw (lookup-insert j k v rest, there) refl
  lookup-unless k j v rest (some w) there = refl

  lookup-absent :
      (k : Text) (v : Value F) (rest : List (Text × Value F)) (o : Option (Value F))
      → o ≡ none
      → lookup k (unless_present o k v rest) ≡ some v
  lookup-absent k v rest none e = rw (lookup-insert k k v rest, text_eq_refl k) refl
  lookup-absent k v rest (some w) e = absurd (ground (arith, e))

  fill-present :
      (k : Text) (w : Value F) (d e : List (Text × Value F))
      → lookup k d ≡ some w
      → lookup k (fill d e) ≡ some w
  unfolding fill
  fill-present k w d [] h = h
  fill-present k w d ((j, v) ∷ e) h = elim (Bool-cases (text_eq j k)) [
    | inl here ↦
        let same = text_eq→eq j k here in
        let found : lookup j d ≡ some w = rw same h in
        ap (lookup k) (present j v w (fill d e) (lookup j d) found) ∙ fill-present k w d e h
    | inr there ↦ lookup-unless k j v (fill d e) (lookup j d) there ∙ fill-present k w d e h
  ]

  fill-absent :
      (k : Text) (d e : List (Text × Value F))
      → lookup k d ≡ none
      → lookup k (fill d e) ≡ lookup k e
  unfolding fill lookup
  fill-absent k d [] h = h
  fill-absent k d ((j, v) ∷ e) h = elim (Bool-cases (text_eq j k)) [
    | inl here ↦
        let same = text_eq→eq j k here in
        let missing : lookup j d ≡ none = rw same h in
        rw here (
          ap (λ key. lookup key (unless_present (lookup j d) j v (fill d e))) (sym same)
          ∙ lookup-absent j v (fill d e) (lookup j d) missing)
    | inr there ↦ rw there (lookup-unless k j v (fill d e) (lookup j d) there ∙ fill-absent k d e h)
  ]

  lookup-fill :
      (k : Text) (d e : List (Text × Value F)) (o : Option (Value F))
      → lookup k d ≡ o
      → lookup k (fill d e) ≡ or_else o (lookup k e)
  lookup-fill k d e none h = fill-absent k d e h
  lookup-fill k d e (some w) h = fill-present k w d e h

  -- What UCI says of a key.
  abbrev pub uci_value : Text → Option (List (Text × Value F)) → Option (Value F)
  uci_value k none = none
  uci_value k (some entries) = if is_internal k then none else lookup k entries

  lookup-filter :
      (k : Text) (entries : List (Text × Value F))
      → lookup k (filter (λ e. not (is_internal e.0)) entries) ≡ uci_value k (some entries)
  unfolding lookup
  lookup-filter k [] = ground arith
  lookup-filter k ((j, v) ∷ entries) = elim (Bool-cases (is_internal j)) [
    | inl internal ↦ elim (Bool-cases (text_eq j k)) [
      | inl here ↦
          let too : is_internal k ≡ true = rw (← text_eq→eq j k here) internal in
          rw (internal, lookup-filter k entries, too) refl
      | inr there ↦ rw (internal, there) (lookup-filter k entries)
    ]
    | inr plain ↦ elim (Bool-cases (text_eq j k)) [
      | inl here ↦
          let too : is_internal k ≡ false = rw (← text_eq→eq j k here) plain in
          rw (plain, here, too) refl
      | inr there ↦ rw (plain, there) (lookup-filter k entries)
    ]
  ]

  or_else_self : (o : Option (Value F)) → or_else o o ≡ o
  or_else_self none = refl
  or_else_self (some v) = refl

  or_else_again : (u d : Option (Value F)) → or_else (or_else u d) d ≡ or_else u d
  or_else_again none d = or_else_self d
  or_else_again (some v) d = refl

  -- The dict, updated if there is something.
  lookup-nonempty :
      (k : Text) (d v : List (Text × Value F)) (s t : Source)
      → lookup k
          (if◌then◌else◌ {A = List (Text × Value F) × Source} (is_empty v) (d, s) (update d v, t)).0
        ≡ or_else (lookup k v) (lookup k d)
  unfolding lookup
  lookup-nonempty k d [] s t = refl
  lookup-nonempty k d (e ∷ v) s t = lookup-update k d (e ∷ v)

  abbrev no_entries : List (Text × Value F)
  no_entries = []

  nothing_there : (k : Text) (b : Bool) → (if b then none else lookup k no_entries) ≡ none
  unfolding lookup
  nothing_there k true = refl
  nothing_there k false = refl

  lookup-uci :
      (k : Text) (defaults : List (Text × Value F)) (section : Option (List (Text × Value F)))
      → or_else (lookup k (get_uci_config defaults section)) (lookup k defaults)
        ≡ or_else (uci_value k section) (lookup k defaults)
  unfolding get_uci_config
  lookup-uci k defaults none = or_else_self (lookup k defaults)
  lookup-uci k defaults (some []) =
      or_else_self (lookup k defaults)
      ∙ sym (ap (λ o. or_else o (lookup k defaults)) (nothing_there k (is_internal k)))
  lookup-uci k defaults (some (e ∷ entries)) =
      ap (λ o. or_else o (lookup k defaults)) (lookup-filter k (e ∷ entries))

  -- The value of a key is that of the overrides; else that of UCI, if its section could be read and the
  -- key is none that UCI keeps for itself; else the default.
  pub lookup-raw_values :
      (k : Text) (defaults : List (Text × Value F)) (section : Option (List (Text × Value F)))
      (overrides : List (Text × Value F))
      → lookup k (raw_values defaults section overrides).0
        ≡ or_else (lookup k overrides) (or_else (uci_value k section) (lookup k defaults))
  unfolding raw_values load_raw_config
  lookup-raw_values k defaults section overrides =
      let (raw, source) = load_raw_config defaults section in
      let values = get_uci_config defaults section in
      let default = lookup k defaults in
      let loaded : lookup k raw ≡ or_else (uci_value k section) default =
        lookup-nonempty k defaults values from_defaults from_uci ∙ lookup-uci k defaults section in
      let filled : lookup k (fill raw defaults) ≡ or_else (uci_value k section) default =
        lookup-fill k raw defaults (lookup k raw) refl
        ∙ ap (λ o. or_else o default) loaded
        ∙ or_else_again (uci_value k section) default in
      lookup-nonempty k (fill raw defaults) overrides source from_cli
      ∙ ap (or_else (lookup k overrides)) filled

  -- Where there is no override and the defaults are not empty, the source is said to be UCI when UCI
  -- could not be read.
  pub source_without_uci :
      (entry : Text × Value F) (defaults : List (Text × Value F))
      → (raw_values (entry ∷ defaults) none []).1 ≡ from_uci
  unfolding raw_values load_raw_config get_uci_config
  source_without_uci entry defaults = refl
