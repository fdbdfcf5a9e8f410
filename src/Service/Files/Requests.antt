-- ===== src/Service/Files/Requests.antt =====
-- `_handle_file` and `_handle_file_mcu_read` in mcubridge/mcubridge/services/runtime.py.
use arduino_yun_bridge.Base.{
  ◌&&◌, ◌||◌, Bool, true, false, Option, none, some, List, [], if◌then◌else◌, Bytes, Text, codes,
  text_eq, is_empty, length, drop, starts_with,
}
use arduino_yun_bridge.Topics.{TopicRoute, join}
use arduino_yun_bridge.Service.Pins.{Request}
use arduino_yun_bridge.Service.Files.{
  FileSystem, Files, Written, written, refused, write_error, mcu_fs_prefix, file_read, file_write,
  file_remove, content, mcu_read_dispatch_failed, send, publish, fail, remove, receive_all,
  result_of, answer_read, write_with_quota, get_safe_path, is_response, action, remainder,
}

module _ (fs : FileSystem) where
  -- `sent`: what `send_raw` returns. `arrivals`: the contents that the MCU sends before the time is up.
  unfoldable pub handle_file_mcu_read : Bool → List Bytes → Request → Text → Files fs → Files fs
  handle_file_mcu_read sent arrivals request target s =
      let path = drop (length mcu_fs_prefix) target in
      let asked =
        send fs (file_read path)
          (record s { pending_mcu_read = some (record { chunks = []; result = none }) }) in
      let waited = receive_all fs arrivals asked in
      if sent
      then record (answer_read fs request target (result_of fs waited.pending_mcu_read) waited) {
        pending_mcu_read = none;
      }
      else record (publish fs (mcu_read_dispatch_failed target request) asked) {
        pending_mcu_read = none;
      }

  abbrev pub on_mcu : Bool → List Bytes → Request → Text → Text → Files fs → Files fs
  on_mcu sent arrivals request act target s =
      let path = drop (length mcu_fs_prefix) target in
      if text_eq act (codes "read")
      then handle_file_mcu_read sent arrivals request target s
      else if text_eq act (codes "write")
      then (let s' = send fs (file_write path request.payload) s in
          if sent then publish fs (content false target request.payload request) s' else s')
      else if text_eq act (codes "remove")
      then send fs (file_remove path) s
      else s

  abbrev pub publish_write : Request → Text → Files fs × Written → Files fs
  publish_write request target (s, written) =
      publish fs (content false target request.payload request) s
  publish_write request target (s, refused) = s
  publish_write request target (s, write_error) = s

  abbrev pub publish_content : Request → Text → Option Bytes → Files fs → Files fs
  publish_content request target none s = fail fs s
  publish_content request target (some bytes) s = publish fs (content true target bytes request) s

  abbrev pub on_disk : Request → Text → Text → List Text → Files fs → Files fs
  on_disk request act target path s =
      if text_eq act (codes "write")
      then publish_write request target (write_with_quota fs path request.payload s)
      else if text_eq act (codes "read") && fs.is_file path s.disk
      then (if is_response request.topic
          then s
          else publish_content request target (fs.read_bytes path s.disk) s)
      else if text_eq act (codes "remove") && fs.exists path s.disk
      then remove fs path s
      else s

  abbrev pub locally : Request → Text → Text → Option (List Text) → Files fs → Files fs
  locally request act target none s = s
  locally request act target (some path) s = on_disk request act target path s

  abbrev pub acted : Bool → List Bytes → Request → Text → Option Text → Files fs → Files fs
  acted sent arrivals request target none s = s
  acted sent arrivals request target (some act) s =
      if is_empty act || is_empty target
      then s
      else if starts_with mcu_fs_prefix target
      then on_mcu sent arrivals request act target s
      else locally request act target (get_safe_path fs target) s

  unfoldable pub handle_file : Bool → List Bytes → TopicRoute → Request → Files fs → Files fs
  unfolding get_safe_path write_with_quota handle_file_mcu_read action
  handle_file sent arrivals r request s =
      acted sent arrivals request (join (remainder r)) (action r) s
