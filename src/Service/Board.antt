-- ===== src/Service/Board.antt =====
-- The board in mcubridge/mcubridge/services/runtime.py: `_handle_system`, `_request_mcu_version` and
-- `_handle_spi`. What `serial.send` returns is an argument, and so are the protobuf parsers (`none` is
-- an exception of theirs). What is sent and reported is kept in lists, the first one first.
use arduino_yun_bridge.Base.{
  ◌&&◌, ℕ, Bool, true, false, Option, none, some, List, [], ◌∷◌, ◌++◌, if◌then◌else◌, Bytes, Text,
  codes, text_eq, any, is_empty,
}
use arduino_yun_bridge.Topics.{TopicRoute}
use arduino_yun_bridge.Service.Access.{identifier}
use arduino_yun_bridge.Service.Pins.{Request}

abbrev pub bootloader_magic : ℕ
bootloader_magic = 3735929054

-- What `serial.send` returns: a truth value, or the payload of the answer.
pub data Answer : Type 0 where
  returned : Bool → Answer
  replied : Bytes → Answer

pub data BoardPacket : Type 0 where
  enter_bootloader : ℕ → BoardPacket
  get_free_memory get_version spi_begin spi_end : BoardPacket
  spi_set_config spi_transfer : Bytes → BoardPacket

pub record Version : Type 0 where
  pub major : ℕ
  pub minor : ℕ
  pub patch : ℕ

-- What is published, with the request that it answers.
pub data BoardReport : Type 0 where
  free_memory_value : ℕ → Request → BoardReport
  version_value : Version → Option Request → BoardReport
  handshake_snapshot bridge_snapshot : Request → BoardReport
  spi_data : Bytes → Request → BoardReport

-- The protobuf parsers of the payloads. A SPI configuration is printed again after parsing.
pub record Parsers : Type 0 where
  pub version_of : Bytes → Option Version
  pub free_memory_of : Bytes → Option ℕ
  pub spi_data_of : Bytes → Option Bytes
  pub spi_config_of : Bytes → Option Bytes

pub record Board : Type 0 where
  pub mcu_version : Option Version
  pub sent_packets : List BoardPacket
  pub board_reports : List BoardReport
  pub raised : Bool

abbrev pub send : BoardPacket → Board → Board
send p b = record b { sent_packets = b.sent_packets ++ (p ∷ []) }

abbrev publish : BoardReport → Board → Board
publish r b = record b { board_reports = b.board_reports ++ (r ∷ []) }

abbrev fail : Board → Board
fail b = record b { raised = true }

abbrev pub contains : List Text → Text → Bool
contains segments t = any (λ s. text_eq s t) segments

abbrev store_version : Option Request → Option Version → Board → Board × Bool
store_version request none b = (fail b, false)
store_version request (some v) b =
    (publish (version_value v request) (record b { mcu_version = some v }), true)

-- The truth value is the result.
unfoldable pub request_mcu_version : Parsers → Answer → Option Request → Board → Board × Bool
request_mcu_version ps (returned ok) request b = (send get_version b, false)
request_mcu_version ps (replied bytes) request b =
    store_version request (ps.version_of bytes) (send get_version b)

abbrev publish_memory : Request → Option ℕ → Board → Board
publish_memory request none b = fail b
publish_memory request (some n) b = publish (free_memory_value n request) b

abbrev read_memory : Parsers → Answer → Request → Board → Board
read_memory ps (returned ok) request b = b
read_memory ps (replied bytes) request b = publish_memory request (ps.free_memory_of bytes) b

abbrev snapshot : Request → List Text → BoardReport
snapshot request [] = bridge_snapshot request
snapshot request (s ∷ []) = bridge_snapshot request
snapshot request (s ∷ flavor ∷ rest) =
    if text_eq flavor (codes "handshake")
    then handshake_snapshot request
    else bridge_snapshot request

unfoldable pub handle_system : Parsers → Answer → TopicRoute → Request → Board → Board
unfolding request_mcu_version
handle_system ps a r request b =
    let act = identifier r in
    if text_eq act (codes "bootloader")
    then send (enter_bootloader bootloader_magic) b
    else if text_eq act (codes "free_memory") && contains r.segments (codes "get")
    then read_memory ps a request (send get_free_memory b)
    else if text_eq act (codes "version") && contains r.segments (codes "get")
    then (request_mcu_version ps a (some request) b).0
    else if text_eq act (codes "bridge")
    then publish (snapshot request r.segments) b
    else b

-- An error of the parser is only logged.
abbrev configure : Option Bytes → Board → Board
configure none b = b
configure (some config) b = send (spi_set_config config) b

abbrev publish_spi : Request → Option Bytes → Board → Board
publish_spi request none b = fail b
publish_spi request (some bytes) b = publish (spi_data bytes request) b

abbrev read_spi : Parsers → Answer → Request → Board → Board
read_spi ps (returned ok) request b = b
read_spi ps (replied bytes) request b = publish_spi request (ps.spi_data_of bytes) b

unfoldable pub handle_spi : Parsers → Answer → TopicRoute → Request → Board → Board
handle_spi ps a r request b =
    let act = identifier r in
    if text_eq act (codes "begin")
    then send spi_begin b
    else if text_eq act (codes "end")
    then send spi_end b
    else if text_eq act (codes "config")
    then configure (ps.spi_config_of request.payload) b
    else if text_eq act (codes "transfer")
    then (if is_empty request.payload
        then b
        else read_spi ps a request (send (spi_transfer request.payload) b))
    else b
