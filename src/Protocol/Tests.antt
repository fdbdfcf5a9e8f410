-- ===== src/Protocol/Tests.antt =====
-- The generated tables on a few command ids.
use arduino_yun_bridge.Base.{false, codes, ◌≡◌, refl, true, none, some, [], ◌∷◌}
use arduino_yun_bridge.Protocol.Tables.{listed, tables_agree}
use arduino_yun_bridge.Base.Assoc.{lookup, text_key}
use arduino_yun_bridge.Base.{◌↔◌, List}
use arduino_yun_bridge.Protocol.{
  build_resp_to_req_map, build_req_resp_map, CommandDef, is_system_command, expected_responses,
  response_to_request, is_ack_only,
}
use arduino_yun_bridge.Protocol.Command

sync_expects : expected_responses Command.link_sync ≡ Command.link_sync_resp ∷ []
unfolding expected_responses
sync_expects = refl

console_expects : expected_responses Command.console_write ≡ []
unfolding expected_responses
console_expects = refl

spi_answers : response_to_request Command.spi_transfer_resp ≡ some Command.spi_transfer
unfolding response_to_request
spi_answers = refl

xon_answers : response_to_request Command.xon ≡ none
unfolding response_to_request
xon_answers = refl

console_acked : is_ack_only Command.console_write ≡ true
unfolding is_ack_only
console_acked = refl

xoff_is_system : is_system_command Command.xoff ≡ true
unfolding is_system_command
xoff_is_system = refl

abbrev two_commands : List CommandDef
two_commands =
    record { name = codes "CMD_GET"; value = 1; requires_ack = false }
    ∷ record { name = codes "CMD_GET_RESP"; value = 2; requires_ack = false }
    ∷ []

tables_agree_example :
    (listed (codes "CMD_GET_RESP") (codes "CMD_GET") (build_req_resp_map two_commands) ≡ true)
    ↔ (lookup (codes "CMD_GET_RESP") (build_resp_to_req_map two_commands) ≡ some (codes "CMD_GET"))
tables_agree_example = tables_agree two_commands (codes "CMD_GET_RESP") (codes "CMD_GET")
