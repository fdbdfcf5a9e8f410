-- ===== src/Protocol.antt =====
-- mcubridge/mcubridge/protocol/__init__.py, the tables that tools/protocol/generate.py builds for the
-- generated protocol.py, the two lookups of that file, and the constants of mcubridge.proto.
pub mod Command
pub mod Status
mod Tables
mod Tests
use Prim.Native.String.{String}
use arduino_yun_bridge.Base.{
  ℕ, ◌-◌, ◌%◌, ◌^◌, Bool, true, false, ◌&&◌, ◌||◌, Option, none, some, List, [], ◌∷◌, ◌++◌, arith,
  leb, ◌==◌, if◌then◌else◌, Text, codes, text_eq, length, take, drop, any, filter, map,
}
use arduino_yun_bridge.Base.Assoc.{lookup, insert, text_key, nat_key}
use arduino_yun_bridge.Protocol.Command.{CommandDef, commands}

abbrev pub protocol_version : ℕ
protocol_version = 2

abbrev pub uint16_max : ℕ
uint16_max = 65535

abbrev pub max_payload_size : ℕ
max_payload_size = 64

abbrev pub crc_size : ℕ
crc_size = 4

abbrev pub aead_nonce_size : ℕ
aead_nonce_size = 12

abbrev pub aead_tag_size : ℕ
aead_tag_size = 16

abbrev pub nonce_counter_mask : ℕ
nonce_counter_mask = 18446744073709551615

abbrev pub status_code_min : ℕ
status_code_min = 48

abbrev pub status_code_max : ℕ
status_code_max = 63

abbrev pub system_command_min : ℕ
system_command_min = 64

abbrev pub system_command_max : ℕ
system_command_max = 79

-- `command_id & UINT16_MAX` keeps the low 16 bits.
unfoldable pub is_system_command : ℕ → Bool
is_system_command command_id =
    let raw_cmd = command_id % 2 ^ 16 in
    (leb status_code_min raw_cmd && leb raw_cmd status_code_max)
    || (leb system_command_min raw_cmd && leb raw_cmd system_command_max)

-- `name.endswith("_RESP")` and `name[:-5]`
abbrev pub request_name : Text → Option Text
request_name name =
    let stem = length name - 5 in
    if text_eq (drop stem name) (codes "_RESP") then some (take stem name) else none

-- `cmd_names = {c.name for c in spec.commands}`
abbrev pub has_name : List CommandDef → Text → Bool
has_name cs n = any (λ c. text_eq c.name n) cs

-- The request that a command of this name answers, if any: the two guards of both builders.
unfoldable pub request_of : List CommandDef → Text → Option Text
request_of spec name = elim (request_name name) [
  | none ↦ none
  | some req ↦ if has_name spec req then some req else none
]

append_to : Text → Text → List (Text × List Text) → List (Text × List Text)
append_to k v m = elim (lookup k m) [
  | none ↦ insert k (v ∷ []) m
  | some vs ↦ insert k (vs ++ (v ∷ [])) m
]

-- `pairs.setdefault(req_name, []).append(cmd.name)` over the commands
unfoldable pub req_resp_loop :
    List CommandDef → List (Text × List Text) → List CommandDef → List (Text × List Text)
unfolding append_to
req_resp_loop spec pairs [] = pairs
req_resp_loop spec pairs (cmd ∷ rest) =
    req_resp_loop spec
      (elim (request_of spec cmd.name) [ none ↦ pairs | some req ↦ append_to req cmd.name pairs ])
      rest

unfoldable pub build_req_resp_map : List CommandDef → List (Text × List Text)
unfolding req_resp_loop
build_req_resp_map spec = req_resp_loop spec [] spec

-- `reverse[cmd.name] = req_name` over the commands
unfoldable pub resp_to_req_loop :
    List CommandDef → List (Text × Text) → List CommandDef → List (Text × Text)
resp_to_req_loop spec reverse [] = reverse
resp_to_req_loop spec reverse (cmd ∷ rest) =
    resp_to_req_loop spec
      (elim (request_of spec cmd.name) [ none ↦ reverse | some req ↦ insert cmd.name req reverse ])
      rest

unfoldable pub build_resp_to_req_map : List CommandDef → List (Text × Text)
unfolding resp_to_req_loop
build_resp_to_req_map spec = resp_to_req_loop spec [] spec

-- The template writes `Command.X.value` for a name X; an unknown name has no row.
abbrev value_of : List CommandDef → Text → Option ℕ
value_of [] n = none
value_of (c ∷ cs) n = if text_eq c.name n then some c.value else value_of cs n

abbrev name_of : List CommandDef → ℕ → Option Text
name_of [] v = none
name_of (c ∷ cs) v = if c.value == v then some c.name else name_of cs v

abbrev values_of : List CommandDef → List Text → List ℕ
values_of spec [] = []
values_of spec (n ∷ ns) = elim (value_of spec n) [
  | none ↦ values_of spec ns
  | some v ↦ v ∷ values_of spec ns
]

-- `_REQUEST_RESPONSE_MAP.get(command_id, frozenset())`
unfoldable pub expected_responses : ℕ → List ℕ
unfolding commands build_req_resp_map request_of lookup insert
expected_responses command_id = elim (name_of commands command_id) [
  | none ↦ []
  | some n ↦ elim (lookup n (build_req_resp_map commands)) [
    | none ↦ []
    | some ns ↦ values_of commands ns
  ]
]

-- `_RESPONSE_TO_REQUEST_MAP.get(command_id)`
unfoldable pub response_to_request : ℕ → Option ℕ
unfolding commands build_resp_to_req_map request_of lookup insert
response_to_request command_id = elim (name_of commands command_id) [
  | none ↦ none
  | some n ↦ elim (lookup n (build_resp_to_req_map commands)) [
    | none ↦ none
    | some req ↦ value_of commands req
  ]
]

-- `command_id in ACK_ONLY_COMMANDS`
unfoldable pub is_ack_only : ℕ → Bool
unfolding commands
is_ack_only command_id = any (λ c. (c.value == command_id) && c.requires_ack) commands
