-- ===== src/Service/Files/Tests.antt =====
-- A file that is written, one beside the root, and one that the MCU sends in two parts.
use arduino_yun_bridge.Base.{◌++◌, ◌≡◌, refl, true, none, some, List, [], ◌∷◌, arith, Bytes, codes}
use arduino_yun_bridge.Topics.{TopicRoute}
use arduino_yun_bridge.Service.Pins.{Request}
use arduino_yun_bridge.Service.Files.{
  content, mcu_read_timeout, on_mcu_file_write, on_mcu_file_read, on_mcu_file_remove,
  is_relative_to,
}
use arduino_yun_bridge.Service.Files.Requests.{handle_file, handle_file_mcu_read}
use arduino_yun_bridge.Service.Files.Sandbox.{is_inside, files-confined}
use arduino_yun_bridge.Service.Files.Chunked.{handle_file_mcu_read-answers}
use arduino_yun_bridge.Service.Files.Toy.{toy, toy-IsFileSystem, files_toy, outer}

abbrev write_route : TopicRoute
write_route = record {
  raw = codes "br/file/write/f";
  prefix = codes "br";
  topic = codes "file";
  segments = codes "write" ∷ codes "f" ∷ [];
}

abbrev request : Request
request = record {
  topic = codes "br/file/write/f";
  payload = 5 ∷ [];
  correlation_data = none;
  response_topic = none;
}

files-confined_example :
    (toy.read_bytes outer (handle_file toy true [] write_route request files_toy).disk
      ≡ some (7 ∷ []))
    × (toy.read_bytes outer (on_mcu_file_write toy (codes "../x") (5 ∷ []) files_toy).disk
        ≡ some (7 ∷ []))
    × (toy.read_bytes outer (on_mcu_file_read toy (codes "../x") files_toy).disk ≡ some (7 ∷ []))
    × (toy.read_bytes outer (on_mcu_file_remove toy (codes "../x") files_toy).disk ≡ some (7 ∷ []))
unfolding is_relative_to is_inside
files-confined_example =
    files-confined toy toy-IsFileSystem outer refl true [] write_route request (codes "../x")
      (5 ∷ []) files_toy

abbrev parts : List Bytes
parts = (1 ∷ 2 ∷ []) ∷ (3 ∷ []) ∷ []

handle_file_mcu_read-answers_example :
    ((handle_file_mcu_read toy true
        (parts ++ ([] ∷ (9 ∷ []) ∷ []))
        request
        (codes "mcu/f")
        files_toy).file_reports
      ≡ content true (codes "mcu/f") (1 ∷ 2 ∷ 3 ∷ []) request ∷ [])
    × ((handle_file_mcu_read toy true parts request (codes "mcu/f") files_toy).file_reports
        ≡ mcu_read_timeout (codes "mcu/f") request ∷ [])
    × ((handle_file_mcu_read toy true
          (parts ++ ([] ∷ (9 ∷ []) ∷ []))
          request
          (codes "mcu/f")
          files_toy).pending_mcu_read
        ≡ none)
    × ((handle_file_mcu_read toy true parts request (codes "mcu/f") files_toy).pending_mcu_read
        ≡ none)
handle_file_mcu_read-answers_example =
    handle_file_mcu_read-answers toy parts ((9 ∷ []) ∷ []) request (codes "mcu/f") files_toy
      (omega arith, (omega arith, tt))
