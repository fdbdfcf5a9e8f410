-- ===== src/Config/Load/Secret.antt =====
-- The shared secret of the defaults.
use mathlib.Core.Path.{subst}
use arduino_yun_bridge.Base.{
  Bytes, Bool, codes, text_eq→eq, arith, false, true, text_eq, ◌≡◌, Option, List, Text,
  if◌then◌else◌, none, some, [], ◌∷◌, refl, inl, inr, ap, sym, ◌∙◌, Bool-cases,
}
use arduino_yun_bridge.Base.Assoc.{lookup-insert, lookup, text_key}
use arduino_yun_bridge.Config.Coerce.{
  nothing, integer, real, truth, items, Value, text, bytes, bytes_kind, Builtins, coerce_value,
  trim,
}
use arduino_yun_bridge.Config.Load.Defaults.{
  encoded_secret, default_fields, default_secret, Json, IsJson, get_default_config,
}
use arduino_yun_bridge.Config.Load.Precedence.{lookup-raw_values, uci_value}
use arduino_yun_bridge.Config.Validate.{Invalid, validate_config, normalise, RuntimeConfig}
use arduino_yun_bridge.Config.{words, is_blank}
use arduino_yun_bridge.Config.Load.{
  from_uci, from_defaults, from_cli, authorization, message, checked, bytes_of, raw_values, built,
  commands, Source, split_commands, add_field, setting, Setting, Descriptor, Field, single, skipped,
  raises, sets, Messages, load_fields, load_runtime_config, Loaded, config,
}

-- The first descriptor of a name.
abbrev pub find : Text → List Descriptor → Option Descriptor
find name [] = none
find name (d ∷ ds) = if text_eq d.name name then some d else find name ds

find-here :
    (name : Text) (d' d : Descriptor) (ds : List Descriptor)
    → text_eq d'.name name ≡ true
    → find name (d' ∷ ds) ≡ some d
    → d' ≡ d
find-here name d' d ds here known = ground (arith, here, known)

find-there :
    (name : Text) (d' d : Descriptor) (ds : List Descriptor)
    → text_eq d'.name name ≡ false
    → find name (d' ∷ ds) ≡ some d
    → find name ds ≡ some d
find-there name d' d ds there known = ground (arith, there, known)

module _ (b : Builtins) (p : Messages b) where
  abbrev FoundIn : Text → Field b.Float → Option (List (Text × Field b.Float)) → Type 0
  FoundIn name f none = Unit
  FoundIn name f (some fields) = lookup name fields ≡ some f

  add_here :
      (name k : Text) (f : Field b.Float) (rest : Option (List (Text × Field b.Float)))
      → text_eq k name ≡ true
      → FoundIn name f (add_field b p k (sets f) rest)
  unfolding lookup
  add_here name k f none e = tt
  add_here name k f (some fields) e = rw e refl

  add_there :
      (name k : Text) (f : Field b.Float) (s : Setting b.Float)
      (rest : Option (List (Text × Field b.Float)))
      → text_eq k name ≡ false
      → FoundIn name f rest
      → FoundIn name f (add_field b p k s rest)
  unfolding lookup
  add_there name k f skipped rest e found = found
  add_there name k f raises rest e found = tt
  add_there name k f (sets g) none e found = tt
  add_there name k f (sets g) (some fields) e found = rw e found

  found_in :
      (ds : List Descriptor) (raw : List (Text × Value b.Float)) (name : Text) (d : Descriptor)
      (f : Field b.Float)
      → find name ds ≡ some d
      → setting b p d (lookup name raw) ≡ sets f
      → FoundIn name f (load_fields b p ds raw)
  unfolding load_fields
  found_in [] raw name d f known e = absurd (ground (arith, known))
  found_in (d' ∷ ds) raw name d f known e = elim (Bool-cases (text_eq d'.name name)) [
    | inl here ↦
        let same = find-here name d' d ds here known in
        let set =
          ap (λ k. setting b p d' (lookup k raw)) (text_eq→eq d'.name name here)
          ∙ ap (λ x. setting b p x (lookup name raw)) same
          ∙ e in
        let rest = load_fields b p ds raw in
        subst (λ s. FoundIn name f (add_field b p d'.name s rest)) (sym set)
          (add_here name d'.name f rest here)
    | inr there ↦
        add_there name d'.name f (setting b p d' (lookup d'.name raw)) (load_fields b p ds raw)
          there (found_in ds raw name d f (find-there name d' d ds there known) e)
  ]

  abbrev commands_key : Text
  commands_key = codes "allowed_commands"

  abbrev secret : Text
  secret = codes "serial_shared_secret"

  -- The value that a text gives the secret.
  secret-setting :
      (d : Descriptor) (t : Text)
      → d.kind ≡ bytes_kind
      → d.repeated ≡ false
      → p.accepts bytes_kind (bytes (trim t)) ≡ true
      → setting b p d (some (text t)) ≡ sets (single (bytes (trim t)))
  secret-setting d t k r a = unfold coerce_value in rw (r, k, a) refl

  commands-lookup :
      (o : Option (Value b.Float)) (raw : List (Text × Value b.Float))
      → lookup secret (commands o raw) ≡ lookup secret raw
  commands-lookup none raw = lookup-insert commands_key secret (items []) raw
  commands-lookup (some nothing) raw = lookup-insert commands_key secret (items []) raw
  commands-lookup (some (text t)) raw =
      lookup-insert commands_key secret (items (words is_blank t)) raw
  commands-lookup (some (integer n)) raw = refl
  commands-lookup (some (real x)) raw = refl
  commands-lookup (some (truth x)) raw = refl
  commands-lookup (some (bytes bs)) raw = refl
  commands-lookup (some (items ts)) raw = refl

  abbrev secret_of : Loaded b p → Bytes
  secret_of (config cfg) = cfg.serial_shared_secret
  secret_of l = []

  checked-secret :
      (source : Source) (v : RuntimeConfig × Option Invalid) (cfg : RuntimeConfig)
      → checked b p source v ≡ config cfg
      → cfg.serial_shared_secret ≡ v.0.serial_shared_secret
  checked-secret source (m, none) cfg e = sym (ap secret_of e)
  checked-secret from_uci (m, some x) cfg e = absurd (ground (arith, e))
  checked-secret from_defaults (m, some x) cfg e = absurd (ground (arith, e))
  checked-secret from_cli (m, some x) cfg e = absurd (ground (arith, e))

  built-secret :
      (source : Source) (auth : Text → Bool) (o : Option (List (Text × Field b.Float)))
      (f : Field b.Float) (cfg : RuntimeConfig)
      → FoundIn secret f o
      → built b p source auth o ≡ config cfg
      → cfg.serial_shared_secret ≡ bytes_of b p (some f)
  built-secret source auth none f cfg found e = absurd (ground (arith, e))
  built-secret source auth (some fields) f cfg found e =
      let m = message b p fields auth in
      checked-secret source (validate_config m) cfg e
      ∙ (unfold validate_config normalise message in ap (bytes_of b p) found)

  default-lookup :
      (j : Json b.Float)
      → IsJson j
      → lookup secret (get_default_config j) ≡ some (text encoded_secret)
  unfolding get_default_config default_fields lookup
  default-lookup j ij =
      ij.bytes_encoded secret default_secret (default_fields j.seconds) refl refl
      ∙ ap (λ t. some (text t)) ij.secret_encoded

  -- Where neither the overrides nor UCI give a secret, a configuration that loads has for its secret the
  -- base64 text of the default secret, which is not the default secret.
  pub default_secret_encoded :
      (j : Json b.Float) (ds : List Descriptor) (d : Descriptor)
      (section : Option (List (Text × Value b.Float))) (overrides : List (Text × Value b.Float))
      (cfg : RuntimeConfig)
      → IsJson j
      → find secret ds ≡ some d
      → d.kind ≡ bytes_kind
      → d.repeated ≡ false
      → ((bs : Bytes) → p.accepts bytes_kind (bytes bs) ≡ true)
      → lookup secret overrides ≡ none
      → uci_value secret section ≡ none
      → load_runtime_config b p ds (get_default_config j) section overrides ≡ config cfg
      → cfg.serial_shared_secret ≡ encoded_secret
  unfolding load_runtime_config split_commands
  default_secret_encoded j ds d section overrides cfg ij known k r a o u e =
      let (raw, source) = raw_values (get_default_config j) section overrides in
      let found : lookup secret (split_commands raw) ≡ some (text encoded_secret) =
        commands-lookup (lookup commands_key raw) raw
        ∙ lookup-raw_values secret (get_default_config j) section overrides
        ∙ rw (o, u) (default-lookup j ij) in
      let set = ap (setting b p d) found ∙ secret-setting d encoded_secret k r (a encoded_secret) in
      built-secret source (authorization b p (split_commands raw))
        (load_fields b p ds (split_commands raw)) (single (bytes encoded_secret)) cfg
        (found_in ds (split_commands raw) secret d (single (bytes encoded_secret)) known set) e
