-- ===== src/Service/Access.antt =====
-- Who may do what: `allows_topic` with its table (protocol/structures.py), over the topics and actions of
-- tools/protocol/mcubridge.proto, and `_deduce_action` (services/runtime.py).
mod Table
use arduino_yun_bridge.Base.{
  ◌+◌, ◌≡◌, ◌↔◌, Bool, true, false, ◌&&◌, ◌||◌, Option, none, some, List, [], ◌∷◌, ◌++◌, arith, map,
  if◌then◌else◌, Text, codes, text_eq, text_eq_iff, lower_char, starts_with, drop, length, is_empty,
}
use arduino_yun_bridge.Base.Assoc.{Key, lookup, insert}
use arduino_yun_bridge.Topics.{TopicRoute}

-- The fields of the message `TopicAuthorization`, in their order.
abbrev pub fields : List Text
fields =
    codes "file_read"
    ∷ codes "file_write"
    ∷ codes "file_remove"
    ∷ codes "datastore_get"
    ∷ codes "datastore_put"
    ∷ codes "mailbox_read"
    ∷ codes "mailbox_write"
    ∷ codes "shell_run_async"
    ∷ codes "shell_poll"
    ∷ codes "shell_kill"
    ∷ codes "console_input"
    ∷ codes "digital_write"
    ∷ codes "digital_read"
    ∷ codes "digital_mode"
    ∷ codes "analog_write"
    ∷ codes "analog_read"
    ∷ codes "system_version"
    ∷ codes "system_free_memory"
    ∷ codes "system_bootloader"
    ∷ codes "spi_begin"
    ∷ codes "spi_end"
    ∷ codes "spi_transfer"
    ∷ codes "spi_config"
    ∷ []

-- A topic: `name.lower()`, `value`, and the values of its class of actions (none for STATUS).
pub record TopicActions : Type 0 where
  pub name : Text
  pub value : Text
  pub actions : List Text

abbrev pub topic_actions : List TopicActions
topic_actions =
    record { name = codes "analog"; value = codes "a"; actions = codes "write" ∷ codes "read" ∷ [] }
    ∷ record {
      name = codes "console";
      value = codes "console";
      actions = codes "in" ∷ codes "out" ∷ [];
    }
    ∷ record {
      name = codes "datastore";
      value = codes "datastore";
      actions = codes "get" ∷ codes "put" ∷ [];
    }
    ∷ record {
      name = codes "digital";
      value = codes "d";
      actions = codes "write" ∷ codes "read" ∷ codes "mode" ∷ [];
    }
    ∷ record {
      name = codes "file";
      value = codes "file";
      actions = codes "read" ∷ codes "write" ∷ codes "remove" ∷ [];
    }
    ∷ record {
      name = codes "mailbox";
      value = codes "mailbox";
      actions =
          codes "write" ∷ codes "read" ∷ codes "incoming" ∷ codes "processed" ∷ codes "errors" ∷ [];
    }
    ∷ record {
      name = codes "shell";
      value = codes "sh";
      actions = codes "run_async" ∷ codes "poll" ∷ codes "kill" ∷ [];
    }
    ∷ record {
      name = codes "spi";
      value = codes "spi";
      actions = codes "begin" ∷ codes "end" ∷ codes "transfer" ∷ codes "config" ∷ [];
    }
    ∷ record { name = codes "status"; value = codes "status"; actions = [] }
    ∷ record {
      name = codes "system";
      value = codes "system";
      actions =
          codes "free_memory"
          ∷ codes "version"
          ∷ codes "bootloader"
          ∷ codes "get"
          ∷ codes "value"
          ∷ codes "metrics"
          ∷ codes "bridge"
          ∷ codes "handshake"
          ∷ codes "summary"
          ∷ codes "state"
          ∷ [];
    }
    ∷ []

pub pair_iff : (a b : Text × Text) → ((text_eq a.0 b.0 && text_eq a.1 b.1) ≡ true) ↔ (a ≡ b)
pair_iff (a, x) (b, y) = ground (arith, text_eq_iff a b, text_eq_iff x y)

instance abbrev pub pair_key : Key (Text × Text)
pair_key = record { beq = λ a b. text_eq a.0 b.0 && text_eq a.1 b.1; beq_iff = pair_iff }

-- The first action of the class that the rest of the field's name stands for.
abbrev action_of : Text → List Text → Option Text
action_of suffix [] = none
action_of suffix (value ∷ rest) =
    if text_eq value suffix || (text_eq suffix (codes "input") && text_eq value (codes "in"))
    then some value
    else action_of suffix rest

-- One round of the double loop.
abbrev add_field : Text → TopicActions → List ((Text × Text) × Text) → List ((Text × Text) × Text)
add_field field t mapping =
    if starts_with (t.name ++ codes "_") field
    then elim (action_of (drop (length t.name + 1) field) t.actions) [
      | none ↦ mapping
      | some value ↦ insert (t.value, value) field mapping
    ]
    else mapping

abbrev add_topics :
    Text → List TopicActions → List ((Text × Text) × Text) → List ((Text × Text) × Text)
add_topics field [] mapping = mapping
add_topics field (t ∷ ts) mapping = add_topics field ts (add_field field t mapping)

abbrev add_fields : List Text → List ((Text × Text) × Text) → List ((Text × Text) × Text)
add_fields [] mapping = mapping
add_fields (field ∷ rest) mapping = add_fields rest (add_topics field topic_actions mapping)

-- `_get_topic_auth_mapping_v3`
unfoldable pub topic_auth_mapping : List ((Text × Text) × Text)
unfolding insert
topic_auth_mapping = add_fields fields []

-- `topic.lower()`
abbrev pub lower : Text → Text
lower t = map lower_char t

-- `auth` gives the value of each field.
unfoldable pub allows_topic : (Text → Bool) → Text → Text → Bool
allows_topic auth topic action = elim (lookup (lower topic, lower action) topic_auth_mapping) [
  | none ↦ false
  | some field ↦ auth field
]

-- `r.identifier`
abbrev pub identifier : TopicRoute → Text
identifier r = elim r.segments [ [] ↦ [] | s ∷ segs ↦ s ]

abbrev nonempty : Text → Option Text
nonempty t = if is_empty t then none else some t

abbrev pin_action : List Text → Option Text
pin_action [] = none
pin_action (pin ∷ []) = some (codes "write")
pin_action (pin ∷ action ∷ rest) = some (lower action)

abbrev pub is_pin_topic : Text → Bool
is_pin_topic topic = text_eq topic (codes "d") || text_eq topic (codes "a")

unfoldable pub deduce_action : TopicRoute → Option Text
deduce_action r =
    if text_eq r.topic (codes "system")
    then none
    else if is_pin_topic r.topic
    then pin_action r.segments
    else nonempty (identifier r)
