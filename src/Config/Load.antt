-- ===== src/Config/Load.antt =====
-- The loading of the configuration: mcubridge/mcubridge/config/settings.py, and `get_uci_config` of
-- mcubridge/mcubridge/config/common.py. A dict is an association list that has a key once. The fields of
-- the message are an argument.
mod Precedence
mod Typed
mod Secret
pub mod Defaults
mod Tests
use arduino_yun_bridge.Base.{
  ◌++◌, Bytes, false, ◌||◌, starts_with, not, codes, is_empty, filter, Bool, Option, List, Text, ℕ,
  if◌then◌else◌, none, some, [], ◌∷◌, refl, inl, inr,
}
use arduino_yun_bridge.Base.Ints.{ℤ, pos, negsuc}
use arduino_yun_bridge.Base.Assoc.{lookup, insert, text_key}
use arduino_yun_bridge.Config.{is_blank, words}
use arduino_yun_bridge.Config.Coerce.{
  Value, nothing, text, integer, real, truth, bytes, items, Kind, bool_kind, Builtins, coerce_value,
}
use arduino_yun_bridge.Config.Validate.{RuntimeConfig, Invalid, validate_config}

-- `pb_msg.DESCRIPTOR.fields`, less the two that the loader skips.
pub record Descriptor : Type 0 where
  pub name : Text
  pub kind : Kind
  pub repeated : Bool

-- Where the configuration comes from.
pub data Source : Type 0 where
  from_uci from_defaults from_cli : Source

module _ {F : Type 0} where
  -- What the section of UCI gives: no module, no usable class, a section that is empty or an error
  -- of its own are all none.
  unfoldable pub get_uci_config :
      List (Text × Value F) → Option (List (Text × Value F)) → List (Text × Value F)
  get_uci_config defaults none = defaults
  get_uci_config defaults (some []) = defaults
  get_uci_config defaults (some (entry ∷ entries)) =
      filter (λ e. not (starts_with (codes ".") e.0 || starts_with (codes "_") e.0))
        (entry ∷ entries)

  -- `d.update(e)`, up to the order of the keys
  unfoldable pub update : List (Text × Value F) → List (Text × Value F) → List (Text × Value F)
  update d [] = d
  update d ((k, v) ∷ e) = insert k v (update d e)

  abbrev pub unless_present :
      Option (Value F) → Text → Value F → List (Text × Value F) → List (Text × Value F)
  unless_present none k v d = insert k v d
  unless_present (some w) k v d = d

  -- What `d` has no key for.
  unfoldable pub fill : List (Text × Value F) → List (Text × Value F) → List (Text × Value F)
  fill d [] = d
  fill d ((k, v) ∷ e) = let rest = fill d e in unless_present (lookup k d) k v rest

  unfoldable pub load_raw_config :
      List (Text × Value F) → Option (List (Text × Value F)) → List (Text × Value F) × Source
  unfolding get_uci_config update
  load_raw_config defaults section =
      let values = get_uci_config defaults section in
      if is_empty values then (defaults, from_defaults) else (update defaults values, from_uci)

  -- `raw_values`, with the defaults and the overrides.
  unfoldable pub raw_values :
      List (Text × Value F)
      → Option (List (Text × Value F))
      → List (Text × Value F)
      → List (Text × Value F) × Source
  unfolding load_raw_config update fill
  raw_values defaults section overrides =
      let (raw, source) = load_raw_config defaults section in
      let filled = fill raw defaults in
      if is_empty overrides then (filled, source) else (update filled overrides, from_cli)

  abbrev pub commands : Option (Value F) → List (Text × Value F) → List (Text × Value F)
  commands none raw = insert (codes "allowed_commands") (items []) raw
  commands (some nothing) raw = insert (codes "allowed_commands") (items []) raw
  commands (some (text t)) raw = insert (codes "allowed_commands") (items (words is_blank t)) raw
  commands (some v) raw = raw

  unfoldable pub split_commands : List (Text × Value F) → List (Text × Value F)
  split_commands raw = commands (lookup (codes "allowed_commands") raw) raw

-- A field of the message.
pub data Field (F : Type 0) : Type 0 where
  single : Value F → Field F
  many : List (Value F) → Field F

-- What the loop does with a field.
pub data Setting (F : Type 0) : Type 0 where
  skipped raises : Setting F
  sets : Field F → Setting F

-- Protobuf, and the reading of a time in milliseconds: what `setattr` takes for a field of a kind.
pub record Messages (b : Builtins) : Type 0 where
  pub accepts : Kind → Value b.Float → Bool
  pub milliseconds : b.Float → ℕ

abbrev pub prepend {ℓ} : {A : Type ℓ} → A → Option (List A) → Option (List A)
prepend a none = none
prepend a (some rest) = some (a ∷ rest)

module _ (b : Builtins) (p : Messages b) where
  abbrev pub add_item :
      Kind → Option (Value b.Float) → Option (List (Value b.Float)) → Option (List (Value b.Float))
  add_item kind none rest = none
  add_item kind (some v) rest = if p.accepts kind v then prepend v rest else none

  -- The items of a list, coerced; `extend` raises on None.
  abbrev pub coerce_items : Descriptor → List Text → Option (List (Value b.Float))
  coerce_items d [] = some []
  coerce_items d (t ∷ ts) =
      let rest = coerce_items d ts in add_item d.kind (coerce_value b (text t) d.kind d.name) rest

  abbrev pub set_items : Option (List (Value b.Float)) → Setting b.Float
  set_items none = raises
  set_items (some vs) = sets (many vs)

  abbrev pub set_value : Kind → Option (Value b.Float) → Setting b.Float
  set_value kind none = skipped
  set_value kind (some v) = if p.accepts kind v then sets (single v) else raises

  abbrev pub set_repeated : Descriptor → Value b.Float → Setting b.Float
  set_repeated d (items ts) = set_items (coerce_items d ts)
  set_repeated d v = skipped

  abbrev pub setting : Descriptor → Option (Value b.Float) → Setting b.Float
  setting d none = skipped
  setting d (some v) =
      if d.repeated then set_repeated d v else set_value d.kind (coerce_value b v d.kind d.name)

  abbrev pub add_field :
      Text
      → Setting b.Float
      → Option (List (Text × Field b.Float))
      → Option (List (Text × Field b.Float))
  add_field name skipped rest = rest
  add_field name raises rest = none
  add_field name (sets field) rest = prepend (name, field) rest

  -- The loop over the fields; none is an exception.
  unfoldable pub load_fields :
      List Descriptor → List (Text × Value b.Float) → Option (List (Text × Field b.Float))
  unfolding coerce_value
  load_fields [] raw = some []
  load_fields (d ∷ ds) raw =
      let rest = load_fields ds raw in add_field d.name (setting d (lookup d.name raw)) rest

  -- The authorization of a field: "cloud_allow_<name>" is looked up before "allow_<name>".
  abbrev pub candidate : Text → List (Text × Value b.Float) → Option (Value b.Float)
  candidate name raw = elim (lookup (codes "cloud_allow_" ++ name) raw) [
    | some v ↦ some v
    | none ↦ lookup (codes "allow_" ++ name) raw
  ]

  abbrev is_true : Option (Value b.Float) → Bool
  is_true none = false
  is_true (some (truth x)) = x
  is_true (some v) = false

  abbrev granted : Text → Option (Value b.Float) → Bool
  granted name none = false
  granted name (some v) = is_true (coerce_value b v bool_kind name)

  unfoldable pub authorization : List (Text × Value b.Float) → Text → Bool
  unfolding coerce_value
  authorization raw name = granted name (candidate name raw)

  -- What a field of the message reads as; one that was not set has the value of its type.
  abbrev text_of : Option (Field b.Float) → Text
  text_of (some (single (text t))) = t
  text_of f = []

  abbrev pub bytes_of : Option (Field b.Float) → Bytes
  bytes_of (some (single (bytes bs))) = bs
  bytes_of f = []

  abbrev truth_of : Option (Field b.Float) → Bool
  truth_of (some (single (truth x))) = x
  truth_of f = false

  abbrev number_of : Option (Field b.Float) → ℕ
  number_of (some (single (integer (pos n)))) = n
  number_of f = 0

  abbrev time_of : Option (Field b.Float) → ℕ
  time_of (some (single (real r))) = p.milliseconds r
  time_of f = 0

  abbrev texts : List (Value b.Float) → List Text
  texts [] = []
  texts (text t ∷ vs) = t ∷ texts vs
  texts (v ∷ vs) = texts vs

  abbrev texts_of : Option (Field b.Float) → List Text
  texts_of (some (many vs)) = texts vs
  texts_of f = []

  -- The message, as far as `validate_config` reads it.
  unfoldable pub message : List (Text × Field b.Float) → (Text → Bool) → RuntimeConfig
  message fields auth = record {
    allowed_commands = texts_of (lookup (codes "allowed_commands") fields);
    allowed_policy = [];
    topic_authorization = auth;
    topic_prefix = text_of (lookup (codes "topic_prefix") fields);
    serial_response_timeout = time_of (lookup (codes "serial_response_timeout") fields);
    serial_retry_timeout = time_of (lookup (codes "serial_retry_timeout") fields);
    watchdog_enabled = truth_of (lookup (codes "watchdog_enabled") fields);
    watchdog_interval = time_of (lookup (codes "watchdog_interval") fields);
    serial_shared_secret = bytes_of (lookup (codes "serial_shared_secret") fields);
    file_storage_quota_bytes = number_of (lookup (codes "file_storage_quota_bytes") fields);
    file_write_max_bytes = number_of (lookup (codes "file_write_max_bytes") fields);
    mailbox_queue_bytes_limit = number_of (lookup (codes "mailbox_queue_bytes_limit") fields);
    mailbox_queue_limit = number_of (lookup (codes "mailbox_queue_limit") fields);
    allow_non_tmp_paths = truth_of (lookup (codes "allow_non_tmp_paths") fields);
    cloud_spool_dir = text_of (lookup (codes "cloud_spool_dir") fields);
    file_system_root = text_of (lookup (codes "file_system_root") fields);
  }

  -- How the loading ends: the exceptions of the checks are a RuntimeError from UCI, else the ValueError.
  pub data Loaded : Type 0 where
    config : RuntimeConfig → Loaded
    not_accepted : Loaded
    invalid_system invalid : Invalid → Loaded

  abbrev failed : Source → Invalid → Loaded
  failed from_uci e = invalid_system e
  failed from_defaults e = invalid e
  failed from_cli e = invalid e

  abbrev pub checked : Source → RuntimeConfig × Option Invalid → Loaded
  checked source (cfg, none) = config cfg
  checked source (cfg, some e) = failed source e

  abbrev pub built : Source → (Text → Bool) → Option (List (Text × Field b.Float)) → Loaded
  built source auth none = not_accepted
  built source auth (some fields) = checked source (validate_config (message fields auth))

  unfoldable pub load_runtime_config :
      List Descriptor
      → List (Text × Value b.Float)
      → Option (List (Text × Value b.Float))
      → List (Text × Value b.Float)
      → Loaded
  unfolding raw_values split_commands load_fields message authorization
  load_runtime_config ds defaults section overrides =
      let (raw, source) = raw_values defaults section overrides in
      let split = split_commands raw in built source (authorization split) (load_fields ds split)
