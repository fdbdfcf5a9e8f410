-- ===== src/Config/Load/Typed.antt =====
-- The fields that are set have values of their kinds.
use mathlib.Core.Path.{subst}
use arduino_yun_bridge.Base.{
  if-holds, Option, Bool-cases, All, true, false, ◌≢◌, ◌≡◌, Text, List, none, some, [], ◌∷◌, refl,
  inl, inr,
}
use arduino_yun_bridge.Base.Assoc.{lookup, text_key}
use arduino_yun_bridge.Config.Coerce.{
  nothing, text, integer, real, truth, bytes, items, Kind, Value, other_kind, Builtins,
  coerce_value, coerce_value-kind, kind_of,
}
use arduino_yun_bridge.Config.Load.{
  Setting, add_item, prepend, coerce_items, set_items, set_value, set_repeated, setting, add_field,
  coerce_items, Descriptor, Field, single, many, skipped, raises, sets, Messages, load_fields,
}

module _ (b : Builtins) (p : Messages b) where
  -- The fields in the order of their descriptors, each with a value, or values, of its kind that the
  -- message takes.
  pub data IsTyped : List Descriptor → List (Text × Field b.Float) → Type 0 where
    no_fields : IsTyped [] []
    unset :
        {d : Descriptor} {ds : List Descriptor} {fields : List (Text × Field b.Float)}
        → IsTyped ds fields
        → IsTyped (d ∷ ds) fields
    set_one :
        {d : Descriptor} {ds : List Descriptor} {fields : List (Text × Field b.Float)}
        {v : Value b.Float}
        → d.repeated ≡ false
        → kind_of b v ≡ d.kind
        → p.accepts d.kind v ≡ true
        → IsTyped ds fields
        → IsTyped (d ∷ ds) ((d.name, single v) ∷ fields)
    set_many :
        {d : Descriptor} {ds : List Descriptor} {fields : List (Text × Field b.Float)}
        {vs : List (Value b.Float)}
        → d.repeated ≡ true
        → All (λ v. (kind_of b v ≡ d.kind) × (p.accepts d.kind v ≡ true)) vs
        → IsTyped ds fields
        → IsTyped (d ∷ ds) ((d.name, many vs) ∷ fields)

  abbrev Fits : Kind → Value b.Float → Type 0
  Fits kind v = (kind_of b v ≡ kind) × (p.accepts kind v ≡ true)

  abbrev AllFit : Kind → Option (List (Value b.Float)) → Type 0
  AllFit kind none = Unit
  AllFit kind (some vs) = All (Fits kind) vs

  prepend-Fits :
      (kind : Kind) (v : Value b.Float) (rest : Option (List (Value b.Float)))
      → Fits kind v
      → AllFit kind rest
      → AllFit kind (prepend v rest)
  prepend-Fits kind v none f rest = tt
  prepend-Fits kind v (some vs) f rest = (f, rest)

  add_item-fits :
      (v : Value b.Float) (kind : Kind) (name : Text) (o : Option (Value b.Float))
      (rest : Option (List (Value b.Float)))
      → kind ≢ other_kind
      → coerce_value b v kind name ≡ o
      → AllFit kind rest
      → AllFit kind (add_item b p kind o rest)
  add_item-fits v kind name none rest h e fits = tt
  add_item-fits v kind name (some w) rest h e fits = elim (Bool-cases (p.accepts kind w)) [
    | inl good ↦
        rw good (prepend-Fits kind w rest (coerce_value-kind b v w kind name h e, good) fits)
    | inr bad ↦ rw bad tt
  ]

  items-fit :
      (d : Descriptor) (ts : List Text)
      → d.kind ≢ other_kind
      → AllFit d.kind (coerce_items b p d ts)
  items-fit d [] h = tt
  items-fit d (t ∷ ts) h =
      add_item-fits (text t) d.kind d.name (coerce_value b (text t) d.kind d.name)
        (coerce_items b p d ts) h refl (items-fit d ts h)

  -- What may be set for a field.
  abbrev FitsField : Descriptor → Field b.Float → Type 0
  FitsField d (single v) = (d.repeated ≡ false) × Fits d.kind v
  FitsField d (many vs) = (d.repeated ≡ true) × All (Fits d.kind) vs

  abbrev FitsSetting : Descriptor → Setting b.Float → Type 0
  FitsSetting d (sets field) = FitsField d field
  FitsSetting d s = Unit

  set_items-fits :
      (d : Descriptor) (o : Option (List (Value b.Float)))
      → d.repeated ≡ true
      → AllFit d.kind o
      → FitsSetting d (set_items b p o)
  set_items-fits d none r fits = tt
  set_items-fits d (some vs) r fits = (r, fits)

  set_value-fits :
      (d : Descriptor) (v : Value b.Float) (o : Option (Value b.Float))
      → d.repeated ≡ false
      → d.kind ≢ other_kind
      → coerce_value b v d.kind d.name ≡ o
      → FitsSetting d (set_value b p d.kind o)
  set_value-fits d v none r h e = tt
  set_value-fits d v (some w) r h e = elim (Bool-cases (p.accepts d.kind w)) [
    | inl good ↦ rw good (r, (coerce_value-kind b v w d.kind d.name h e, good))
    | inr bad ↦ rw bad tt
  ]

  set_repeated-fits :
      (d : Descriptor) (v : Value b.Float)
      → d.repeated ≡ true
      → d.kind ≢ other_kind
      → FitsSetting d (set_repeated b p d v)
  set_repeated-fits d (items ts) r h = set_items-fits d (coerce_items b p d ts) r (items-fit d ts h)
  set_repeated-fits d nothing r h = tt
  set_repeated-fits d (text t) r h = tt
  set_repeated-fits d (integer n) r h = tt
  set_repeated-fits d (real x) r h = tt
  set_repeated-fits d (truth x) r h = tt
  set_repeated-fits d (bytes bs) r h = tt

  setting-fits :
      (d : Descriptor) (o : Option (Value b.Float))
      → d.kind ≢ other_kind
      → FitsSetting d (setting b p d o)
  setting-fits d none h = tt
  setting-fits d (some v) h =
      if-holds (FitsSetting d) d.repeated (set_repeated b p d v)
        (set_value b p d.kind (coerce_value b v d.kind d.name)) (λ r. set_repeated-fits d v r h)
        (λ r. set_value-fits d v (coerce_value b v d.kind d.name) r h refl)

  abbrev AllTyped : List Descriptor → Option (List (Text × Field b.Float)) → Type 0
  AllTyped ds none = Unit
  AllTyped ds (some fields) = IsTyped ds fields

  add_field-typed :
      (d : Descriptor) (ds : List Descriptor) (s : Setting b.Float)
      (rest : Option (List (Text × Field b.Float)))
      → FitsSetting d s
      → AllTyped ds rest
      → AllTyped (d ∷ ds) (add_field b p d.name s rest)
  add_field-typed d ds skipped none fits typed = tt
  add_field-typed d ds raises none fits typed = tt
  add_field-typed d ds (sets field) none fits typed = tt
  add_field-typed d ds skipped (some fields) fits typed = unset typed
  add_field-typed d ds raises (some fields) fits typed = tt
  add_field-typed d ds (sets (single v)) (some fields) (r, (k, a)) typed = set_one r k a typed
  add_field-typed d ds (sets (many vs)) (some fields) (r, all) typed = set_many r all typed

  load-AllTyped :
      (ds : List Descriptor) (raw : List (Text × Value b.Float))
      → All (λ d. d.kind ≢ other_kind) ds
      → AllTyped ds (load_fields b p ds raw)
  unfolding load_fields
  load-AllTyped [] raw h = no_fields
  load-AllTyped (d ∷ ds) raw (h, hs) =
      add_field-typed d ds (setting b p d (lookup d.name raw)) (load_fields b p ds raw)
        (setting-fits d (lookup d.name raw) h) (load-AllTyped ds raw hs)

  -- Whatever the configuration holds, the fields that the loader sets stand in the order of their
  -- descriptors, and each has a value of its kind, or a list of them where it is repeated, which the
  -- message takes.
  pub load_fields-IsTyped :
      (ds : List Descriptor) (raw : List (Text × Value b.Float))
      (fields : List (Text × Field b.Float))
      → All (λ d. d.kind ≢ other_kind) ds
      → load_fields b p ds raw ≡ some fields
      → IsTyped ds fields
  load_fields-IsTyped ds raw fields h e = subst (λ o. AllTyped ds o) e (load-AllTyped ds raw h)
