-- ===== src/Protocol/Status.antt =====
-- The enum Status (tools/protocol/mcubridge.proto; `class Status` of the generated protocol.py).
use arduino_yun_bridge.Base.{ℕ, List, [], ◌∷◌}

pub data Status : Type 0 where
  ok error cmd_unknown malformed overflow crc_mismatch timeout not_implemented ack : Status

-- `Status.X.value`
abbrev pub value : Status → ℕ
value ok = 48
value error = 49
value cmd_unknown = 50
value malformed = 51
value overflow = 52
value crc_mismatch = 53
value timeout = 54
value not_implemented = 55
value ack = 56

-- The iteration order of `for s in Status`.
abbrev pub all : List Status
all =
    ok ∷ error ∷ cmd_unknown ∷ malformed ∷ overflow ∷ crc_mismatch ∷ timeout ∷ not_implemented ∷ ack
    ∷ []
