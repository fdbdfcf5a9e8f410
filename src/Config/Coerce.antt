-- ===== src/Config/Coerce.antt =====
-- `_coerce_value` of mcubridge/mcubridge/config/settings.py. Python's `int`, `float` and `str` on values
-- and the resolution of paths are parameters; texts are ASCII, so that they are their own UTF-8 bytes.
use arduino_yun_bridge.Base.{
  arith, sym, ap, ◌∙◌, not, ◌||◌, ◌==◌, ◌≡◌, contains_text, Bytes, ◌&&◌, ◌≢◌, text_eq, codes,
  is_empty, Bool, any, List, Option, Text, ℕ, if◌then◌else◌, none, some, [], ◌∷◌, refl,
}
use arduino_yun_bridge.Base.Ints.{ℤ, pos}
use arduino_yun_bridge.Config.{is_blank, lower}

-- What a configuration holds under a key. A list comes from UCI, where its items are texts.
pub data Value (Float : Type 0) : Type 0 where
  nothing : Value Float
  text : Text → Value Float
  integer : ℤ → Value Float
  real : Float → Value Float
  truth : Bool → Value Float
  bytes : Bytes → Value Float
  items : List Text → Value Float

-- The types of fields. All integer types are one here, and both types of floats.
pub data Kind : Type 0 where
  string_kind integer_kind float_kind bool_kind bytes_kind other_kind : Kind

-- Built-ins; none is a ValueError or TypeError.
pub record Builtins : Type 1 where
  pub Float : Type 0
  pub zero_float : Float
  pub int_of : Value Float → Option ℤ
  pub float_of : Value Float → Option Float
  -- `str`, on what is not a text
  pub str_of : Value Float → Text
  -- `str(Path(s).expanduser().resolve())`
  pub resolve : Text → Text

abbrev trim_left : Text → Text
trim_left [] = []
trim_left (c ∷ cs) = let rest = trim_left cs in if is_blank c then rest else c ∷ cs

abbrev trim_right : Text → Text
trim_right [] = []
trim_right (c ∷ cs) =
    let rest = trim_right cs in if is_empty rest && is_blank c then [] else c ∷ rest

-- `s.strip()`
abbrev pub trim : Text → Text
trim t = trim_right (trim_left t)

-- What the names of fields with a path contain.
abbrev path_marks : List Text
path_marks =
    codes "_dir"
    ∷ codes "_file"
    ∷ codes "_root"
    ∷ codes "serial_port"
    ∷ codes "cloud_ca"
    ∷ codes "cloud_cert"
    ∷ codes "cloud_key"
    ∷ []

abbrev is_path_field : Text → Bool
is_path_field name = any (λ mark. contains_text mark name) path_marks

abbrev has_char : ℕ → Text → Bool
has_char c t = any (λ d. d == c) t

-- The texts that are read as true.
abbrev truths : List Text
truths = codes "1" ∷ codes "true" ∷ codes "yes" ∷ codes "on" ∷ []

module _ (b : Builtins) where
  open b use {Float, zero_float, int_of, float_of, str_of, resolve}

  abbrev pub str : Value Float → Text
  str (text t) = t
  str v = str_of v

  abbrev coerce_text : Text → Text → Option (Value Float)
  coerce_text name t =
      if is_path_field name && (has_char 126 t || has_char 47 t) && not (has_char 10 t)
      then some (text (resolve t))
      else if is_empty t
      then none
      else some (text t)

  abbrev integer_or_zero : Option ℤ → Value Float
  integer_or_zero none = integer (pos 0)
  integer_or_zero (some n) = integer n

  abbrev real_or_zero : Option Float → Value Float
  real_or_zero none = real zero_float
  real_or_zero (some r) = real r

  abbrev coerce_bool : Value Float → Value Float
  coerce_bool (truth x) = truth x
  coerce_bool v = truth (any (λ t. text_eq t (lower (str v))) truths)

  abbrev coerce_bytes : Value Float → Value Float
  coerce_bytes (bytes bs) = bytes bs
  coerce_bytes v = bytes (trim (str v))

  abbrev coerce_some : Kind → Text → Value Float → Option (Value Float)
  coerce_some string_kind name v = coerce_text name (trim (str v))
  coerce_some integer_kind name v = some (integer_or_zero (int_of v))
  coerce_some float_kind name v = some (real_or_zero (float_of v))
  coerce_some bool_kind name v = some (coerce_bool v)
  coerce_some bytes_kind name v = some (coerce_bytes v)
  coerce_some other_kind name v = some v

  unfoldable pub coerce_value : Value Float → Kind → Text → Option (Value Float)
  coerce_value nothing kind name = none
  coerce_value v kind name = coerce_some kind name v

  abbrev pub kind_of : Value Float → Kind
  kind_of (text t) = string_kind
  kind_of (integer n) = integer_kind
  kind_of (real r) = float_kind
  kind_of (truth x) = bool_kind
  kind_of (bytes bs) = bytes_kind
  kind_of v = other_kind

  coerce_text-kind :
      (name t : Text) (w : Value Float) → coerce_text name t ≡ some w → kind_of w ≡ string_kind
  coerce_text-kind name t w e = ground (arith, e)

  integer-kind : (n : Option ℤ) → kind_of (integer_or_zero n) ≡ integer_kind
  integer-kind none = refl
  integer-kind (some n) = refl

  real-kind : (r : Option Float) → kind_of (real_or_zero r) ≡ float_kind
  real-kind none = refl
  real-kind (some r) = refl

  bool-kind : (v : Value Float) → kind_of (coerce_bool v) ≡ bool_kind
  bool-kind nothing = refl
  bool-kind (text t) = refl
  bool-kind (integer n) = refl
  bool-kind (real r) = refl
  bool-kind (truth x) = refl
  bool-kind (bytes bs) = refl
  bool-kind (items ts) = refl

  bytes-kind : (v : Value Float) → kind_of (coerce_bytes v) ≡ bytes_kind
  bytes-kind nothing = refl
  bytes-kind (text t) = refl
  bytes-kind (integer n) = refl
  bytes-kind (real r) = refl
  bytes-kind (truth x) = refl
  bytes-kind (bytes bs) = refl
  bytes-kind (items ts) = refl

  abbrev kind_or : Kind → Option (Value Float) → Kind
  kind_or kind none = kind
  kind_or kind (some v) = kind_of v

  same_kind :
      (v w : Value Float) (kind : Kind) → kind_of v ≡ kind → some v ≡ some w → kind_of w ≡ kind
  same_kind v w kind k e = sym (ap (kind_or kind) e) ∙ k

  coerce_some-kind :
      (v w : Value Float) (kind : Kind) (name : Text)
      → kind ≢ other_kind
      → coerce_some kind name v ≡ some w
      → kind_of w ≡ kind
  coerce_some-kind v w string_kind name h e = coerce_text-kind name (trim (str v)) w e
  coerce_some-kind v w integer_kind name h e =
      same_kind (integer_or_zero (int_of v)) w integer_kind (integer-kind (int_of v)) e
  coerce_some-kind v w float_kind name h e =
      same_kind (real_or_zero (float_of v)) w float_kind (real-kind (float_of v)) e
  coerce_some-kind v w bool_kind name h e = same_kind (coerce_bool v) w bool_kind (bool-kind v) e
  coerce_some-kind v w bytes_kind name h e =
      same_kind (coerce_bytes v) w bytes_kind (bytes-kind v) e
  coerce_some-kind v w other_kind name h e = absurd (h refl)

  -- A value is coerced to one of the field's kind.
  pub coerce_value-kind :
      (v w : Value Float) (kind : Kind) (name : Text)
      → kind ≢ other_kind
      → coerce_value v kind name ≡ some w
      → kind_of w ≡ kind
  unfolding coerce_value
  coerce_value-kind nothing w kind name h e = absurd (ground (arith, e))
  coerce_value-kind (text t) w kind name h e = coerce_some-kind (text t) w kind name h e
  coerce_value-kind (integer n) w kind name h e = coerce_some-kind (integer n) w kind name h e
  coerce_value-kind (real r) w kind name h e = coerce_some-kind (real r) w kind name h e
  coerce_value-kind (truth x) w kind name h e = coerce_some-kind (truth x) w kind name h e
  coerce_value-kind (bytes bs) w kind name h e = coerce_some-kind (bytes bs) w kind name h e
  coerce_value-kind (items ts) w kind name h e = coerce_some-kind (items ts) w kind name h e
