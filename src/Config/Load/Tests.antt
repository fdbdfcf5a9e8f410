-- ===== src/Config/Load/Tests.antt =====
-- A board without UCI, and a message of a few fields.
use arduino_yun_bridge.Base.{
  ◌∙◌, codes, String, ap, Option, text_eq, Bool-cases, arith, false, is_empty, ◌≡◌, Bytes, Text,
  List, true, ℕ, some, none, [], ◌∷◌, refl, inl, inr,
}
use arduino_yun_bridge.Base.Assoc.{lookup, insert, text_key}
use arduino_yun_bridge.Topics.{split}
use arduino_yun_bridge.Config.Validate.{validate_config}
use arduino_yun_bridge.Base.Ints.{pos}
use arduino_yun_bridge.Config.Coerce.{
  Kind, Value, text, integer, real, truth, bytes, items, string_kind, integer_kind, float_kind,
  bool_kind, bytes_kind, Builtins,
}
use arduino_yun_bridge.Config.Load.{
  single, many, Field, RuntimeConfig, Descriptor, Messages, load_runtime_config, load_fields,
  config, raw_values,
}
use arduino_yun_bridge.Config.Load.Defaults.{Json, IsJson, get_default_config, encoded_secret}
use arduino_yun_bridge.Config.Load.Precedence.{lookup-raw_values}
use arduino_yun_bridge.Config.Load.Typed.{IsTyped, load_fields-IsTyped}
use arduino_yun_bridge.Config.Load.Secret.{default_secret_encoded}

-- Floats as milliseconds; a text stands for no number here.
abbrev builtins : Builtins
builtins = record {
  Float = ℕ;
  zero_float = 0;
  int_of = λ v. elim v [ integer n ↦ some n | _ ↦ none ];
  float_of = λ v. elim v [ real r ↦ some r | _ ↦ none ];
  str_of = λ v. [];
  resolve = λ t. t;
}

abbrev messages : Messages builtins
messages = record { accepts = λ kind v. true; milliseconds = λ r. r }

abbrev encode_value : Value ℕ → Value ℕ
encode_value (bytes (b ∷ bs)) = text encoded_secret
encode_value v = v

abbrev encode : List (Text × Value ℕ) → List (Text × Value ℕ)
encode [] = []
encode ((k, v) ∷ fields) = (k, encode_value v) ∷ encode fields

abbrev json : Json ℕ
json = record { to_dict = encode; base64 = λ bs. encoded_secret; seconds = λ n. n }

abbrev encode_found : Option (Value ℕ) → Option (Value ℕ)
encode_found none = none
encode_found (some v) = some (encode_value v)

encode_bytes : (bs : Bytes) → is_empty bs ≡ false → encode_value (bytes bs) ≡ text encoded_secret
encode_bytes [] full = absurd (ground (arith, full))
encode_bytes (b ∷ bs) full = refl

encoded :
    (k : Text) (bs : Bytes) (fields : List (Text × Value ℕ))
    → lookup k fields ≡ some (bytes bs)
    → is_empty bs ≡ false
    → lookup k (encode fields) ≡ some (text encoded_secret)
unfolding lookup
encoded k bs [] found full = absurd (ground (arith, found))
encoded k bs ((j, v) ∷ fields) found full = elim (Bool-cases (text_eq j k)) [
  | inl here ↦
      let same = ap encode_found (rw here at found) in
      rw here (same ∙ ap some (encode_bytes bs full))
  | inr there ↦ rw there (encoded k bs fields (rw there at found) full)
]

json-IsJson : IsJson json
json-IsJson = record { bytes_encoded = encoded; secret_encoded = refl }

abbrev field : String → Kind → Descriptor
field name kind = record { name = codes name; kind = kind; repeated = false }

abbrev secret_field : Descriptor
secret_field = field "serial_shared_secret" bytes_kind

abbrev descriptors : List Descriptor
descriptors =
    record { name = codes "allowed_commands"; kind = string_kind; repeated = true }
    ∷ field "topic_prefix" string_kind
    ∷ field "serial_response_timeout" float_kind
    ∷ field "serial_retry_timeout" float_kind
    ∷ field "cloud_spool_dir" string_kind
    ∷ field "file_system_root" string_kind
    ∷ field "file_storage_quota_bytes" integer_kind
    ∷ secret_field
    ∷ field "watchdog_enabled" bool_kind
    ∷ field "watchdog_interval" float_kind
    ∷ []

abbrev loaded : RuntimeConfig
loaded = record {
  allowed_commands = [];
  allowed_policy = [];
  topic_authorization = λ name. true;
  topic_prefix = codes "br";
  serial_response_timeout = 20000;
  serial_retry_timeout = 10000;
  watchdog_enabled = true;
  watchdog_interval = 10000;
  serial_shared_secret = encoded_secret;
  file_storage_quota_bytes = 8388608;
  file_write_max_bytes = 0;
  mailbox_queue_bytes_limit = 0;
  mailbox_queue_limit = 0;
  allow_non_tmp_paths = false;
  cloud_spool_dir = codes "/tmp/mcubridge/spool";
  file_system_root = codes "/tmp/yun_files";
}

loads :
    load_runtime_config builtins messages descriptors (get_default_config json) none []
    ≡ config loaded
unfolding load_runtime_config get_default_config lookup insert validate_config split
loads = refl

default_secret_encoded_example : loaded.serial_shared_secret ≡ encoded_secret
unfolding lookup
default_secret_encoded_example =
    default_secret_encoded builtins messages json descriptors secret_field none [] loaded
      json-IsJson refl refl refl (λ bs. refl) refl refl loads

-- UCI gives texts.
abbrev section : List (Text × Value ℕ)
section =
    (codes ".name", text (codes "general"))
    ∷ (codes "watchdog_enabled", text (codes "Yes"))
    ∷ (codes "file_storage_quota_bytes", text (codes "much"))
    ∷ (codes "allowed_commands", items (codes "ls" ∷ codes "uptime" ∷ []))
    ∷ []

abbrev section_fields : List (Text × Field ℕ)
section_fields =
    (codes "allowed_commands", many (text (codes "ls") ∷ text (codes "uptime") ∷ []))
    ∷ (codes "file_storage_quota_bytes", single (integer (pos 0)))
    ∷ (codes "watchdog_enabled", single (truth true))
    ∷ []

abbrev few : List Descriptor
few =
    record { name = codes "allowed_commands"; kind = string_kind; repeated = true }
    ∷ field "file_storage_quota_bytes" integer_kind
    ∷ field "watchdog_enabled" bool_kind
    ∷ []

section_loads : load_fields builtins messages few section ≡ some section_fields
unfolding load_fields lookup
section_loads = refl

load_fields-IsTyped_example : IsTyped builtins messages few section_fields
load_fields-IsTyped_example =
    load_fields-IsTyped builtins messages few section section_fields
      ((λ e. ground (arith, e)), ((λ e. ground (arith, e)), ((λ e. ground (arith, e)), tt)))
      section_loads

lookup-raw_values_example :
    lookup (codes "watchdog_enabled") (raw_values (get_default_config json) (some section) []).0
    ≡ some (text (codes "Yes"))
unfolding lookup
lookup-raw_values_example =
    lookup-raw_values (codes "watchdog_enabled") (get_default_config json) (some section) []
