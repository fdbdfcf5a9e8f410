-- ===== src/Gateway.antt =====
-- The sessions of mcubridge-gateway/gateway.py: `CloudBridgeService.Session`. A stream is its number, and a
-- device the name that its certificate gives. TLS and the gRPC server are left out.
mod Sessions
use arduino_yun_bridge.Base.{◌++◌, Text, List, ℕ, none, some, [], ◌∷◌}
use arduino_yun_bridge.Base.Assoc.{insert, remove, text_key}

-- The payload of an envelope of a device, as far as the gateway tells them apart.
pub data Kind : Type 0 where
  ping telemetry event command_response other : Kind

-- What the gateway sends: a pong with the sequence id of the ping.
pub record Pong : Type 0 where
  pub stream : ℕ
  pub sequence_id : ℕ

pub record Gateway : Type 0 where
  pub connections : List (Text × ℕ)
  pub pongs : List Pong

-- `gateway.connections[device_id] = stream`
unfoldable pub open_session : Text → ℕ → Gateway → Gateway
open_session device_id stream g = record g { connections = insert device_id stream g.connections }

-- The other kinds are logged only.
unfoldable pub on_envelope : ℕ → Kind → ℕ → Gateway → Gateway
on_envelope stream ping sequence_id g = record g {
  pongs = g.pongs ++ (record { stream = stream; sequence_id = sequence_id } ∷ []);
}
on_envelope stream kind sequence_id g = g

-- The `finally`: the entry of the device goes, whichever stream it has.
unfoldable pub close_session : Text → Gateway → Gateway
close_session device_id g = record g { connections = remove device_id g.connections }
