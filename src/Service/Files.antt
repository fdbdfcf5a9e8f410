-- ===== src/Service/Files.antt =====
-- Files in mcubridge/mcubridge/services/runtime.py: the
-- file handlers of the MCU's frames, `_get_safe_path` and `_write_with_quota`; and `TopicRoute.action` and
-- `remainder` (protocol/structures.py). The file system is a parameter; an error of its reads and
-- writes raises.
pub mod Requests
pub mod Sandbox
mod Chunked
mod Quota
pub mod Toy
mod Tests
use arduino_yun_bridge.Base.{
  ℕ, ◌+◌, ◌-◌, Bool, true, false, ◌||◌, ◌&&◌, Option, none, some, List, [], ◌∷◌, ◌++◌,
  if◌then◌else◌, Bytes, Text, codes, text_eq, is_empty, ltb, length, drop, starts_with,
}
use arduino_yun_bridge.Topics.{TopicRoute, join}
use arduino_yun_bridge.Protocol.{max_payload_size}
use arduino_yun_bridge.Console.{iter_chunks}
use arduino_yun_bridge.Console.Chunks.{concat}
use arduino_yun_bridge.Service.Access.{identifier}
use arduino_yun_bridge.Service.Board.{contains}
use arduino_yun_bridge.Service.Pins.{Request}

-- `target.startswith(MCU_FS_PREFIX)`
abbrev pub mcu_fs_prefix : Text
mcu_fs_prefix = codes "mcu/"

-- `pathlib.Path`, `shutil.disk_usage` and the disk. A path is its parts. `resolve` stands for
-- `root.joinpath(p).resolve()`, and for no text at all, of the root alone.
pub record FileSystem : Type 1 where
  pub Disk : Type 0
  pub resolve : Text → List Text
  pub is_file : List Text → Disk → Bool
  pub exists : List Text → Disk → Bool
  pub read_bytes : List Text → Disk → Option Bytes
  pub make_parents : List Text → Disk → Disk
  pub write_bytes : List Text → Bytes → Disk → Option Disk
  pub unlink : List Text → Disk → Option Disk
  -- what is used and what is free
  pub disk_usage : Disk → Option (ℕ × ℕ)

-- What goes to the MCU, the first one first; the truth value of a status is OK or ERROR.
pub data FilePacket : Type 0 where
  file_read file_remove : Text → FilePacket
  file_write : Text → Bytes → FilePacket
  file_content : Bytes → FilePacket
  done failed : FilePacket

pub data FileReport : Type 0 where
  -- the topic names the target; whether it ends in "response"
  content : Bool → Text → Bytes → Request → FileReport
  mcu_read_dispatch_failed mcu_read_timeout : Text → Request → FileReport

-- The end of the path of a topic.
abbrev pub remainder : TopicRoute → List Text
remainder r = elim r.segments [ [] ↦ [] | s ∷ segs ↦ segs ]

-- `r.action`, of which only the text matters; none if the topic is that of an answer.
unfoldable pub action : TopicRoute → Option Text
action r =
    if is_empty r.segments
      || contains r.segments (codes "response")
      || contains r.segments (codes "value")
    then none
    else some (identifier r)

-- `s.endswith("response")`
unfoldable pub is_response : Text → Bool
is_response s = text_eq (drop (length s - 8) s) (codes "response")

-- `p.lstrip("/")` is the caller's, in `resolve`; `p.is_relative_to(root)`
unfoldable pub is_relative_to : List Text → List Text → Bool
is_relative_to parts [] = true
is_relative_to [] (r ∷ root) = false
is_relative_to (p ∷ parts) (r ∷ root) =
    let rest = is_relative_to parts root in if text_eq p r then rest else false

-- What a write comes to: an error of the disk leaves the function as an exception.
pub data Written : Type 0 where
  written refused write_error : Written

-- `_PendingMcuRead`: the chunks, the first one first, and the result of the future.
pub record PendingRead : Type 0 where
  pub chunks : List Bytes
  pub result : Option Bytes

module _ (fs : FileSystem) where
  pub record Files : Type 0 where
    pub disk : fs.Disk
    pub file_storage_bytes_used : ℕ
    pub file_storage_limit_rejections : ℕ
    pub file_packets : List FilePacket
    pub file_reports : List FileReport
    pub pending_mcu_read : Option PendingRead
    pub raised : Bool

  abbrev pub send : FilePacket → Files → Files
  send p s = record s { file_packets = s.file_packets ++ (p ∷ []) }

  abbrev publish : FileReport → Files → Files
  publish r s = record s { file_reports = s.file_reports ++ (r ∷ []) }

  abbrev pub fail : Files → Files
  fail s = record s { raised = true }

  unfoldable pub get_safe_path : Text → Option (List Text)
  get_safe_path p =
      if is_relative_to (fs.resolve p) (fs.resolve []) then some (fs.resolve p) else none

  abbrev pub stored : Option fs.Disk → Files → Files × Written
  stored none s = (fail s, write_error)
  stored (some d) s = (record s { disk = d }, written)

  abbrev pub store : List Text → Bytes → Files → Files × Written
  store path bytes s = stored (fs.write_bytes path bytes (fs.make_parents path s.disk)) s

  abbrev pub with_usage : Option (ℕ × ℕ) → List Text → Bytes → Files → Files × Written
  with_usage none path bytes s = store path bytes s
  with_usage (some (used, free)) path bytes s =
      let s' = record s { file_storage_bytes_used = used } in
      if ltb free (length bytes)
      then (
        record s' { file_storage_limit_rejections = s'.file_storage_limit_rejections + 1 },
        refused,
      )
      else store path bytes s'

  unfoldable pub write_with_quota : List Text → Bytes → Files → Files × Written
  write_with_quota path bytes s = with_usage (fs.disk_usage s.disk) path bytes s

  abbrev pub removed : Option fs.Disk → Files → Files
  removed none s = fail s
  removed (some d) s = record s { disk = d }

  abbrev pub remove : List Text → Files → Files
  remove path s = removed (fs.unlink path s.disk) s

  -- The handlers of the MCU's frames.
  abbrev pub answer_write : Files × Written → Files
  answer_write (s, written) = send done s
  answer_write (s, refused) = send failed s
  answer_write (s, write_error) = s

  abbrev pub mcu_write_at : Bytes → Option (List Text) → Files → Files
  mcu_write_at bytes none s = send failed s
  mcu_write_at bytes (some path) s = answer_write (write_with_quota path bytes s)

  unfoldable pub on_mcu_file_write : Text → Bytes → Files → Files
  unfolding get_safe_path write_with_quota
  on_mcu_file_write p bytes s = mcu_write_at bytes (get_safe_path p) s

  abbrev pub send_all : List Bytes → Files → Files
  send_all [] s = s
  send_all (c ∷ cs) s = send_all cs (send (file_content c) s)

  abbrev pub send_content : Option Bytes → Files → Files
  send_content none s = fail s
  send_content (some bytes) s =
      if is_empty bytes
      then send (file_content []) s
      else send_all (iter_chunks bytes (max_payload_size - 3)) s

  abbrev pub mcu_read_at : Option (List Text) → Files → Files
  mcu_read_at none s = send failed s
  mcu_read_at (some path) s =
      if fs.is_file path s.disk then send_content (fs.read_bytes path s.disk) s else send failed s

  unfoldable pub on_mcu_file_read : Text → Files → Files
  unfolding get_safe_path
  on_mcu_file_read p s = mcu_read_at (get_safe_path p) s

  abbrev pub answer_remove : Option fs.Disk → Files → Files
  answer_remove none s = fail s
  answer_remove (some d) s = send done (record s { disk = d })

  abbrev pub mcu_remove_at : Option (List Text) → Files → Files
  mcu_remove_at none s = send failed s
  mcu_remove_at (some path) s =
      if fs.exists path s.disk then answer_remove (fs.unlink path s.disk) s else send failed s

  unfoldable pub on_mcu_file_remove : Text → Files → Files
  unfolding get_safe_path
  on_mcu_file_remove p s = mcu_remove_at (get_safe_path p) s

  abbrev pub receive : Bytes → PendingRead → PendingRead
  receive [] p = elim p.result [ none ↦ record p { result = some (concat p.chunks) } | some r ↦ p ]
  receive (b ∷ bs) p = record p { chunks = p.chunks ++ ((b ∷ bs) ∷ []) }

  abbrev pub receive_for : Bytes → Option PendingRead → Files → Files × Bool
  receive_for bytes none s = (s, false)
  receive_for bytes (some p) s = (record s { pending_mcu_read = some (receive bytes p) }, true)

  -- The truth value is the result.
  unfoldable pub on_mcu_file_read_resp : Bytes → Files → Files × Bool
  on_mcu_file_read_resp bytes s = receive_for bytes s.pending_mcu_read s

  abbrev pub receive_all : List Bytes → Files → Files
  receive_all [] s = s
  receive_all (b ∷ bs) s = receive_all bs (on_mcu_file_read_resp b s).0

  abbrev pub result_of : Option PendingRead → Option Bytes
  result_of none = none
  result_of (some p) = p.result

  abbrev pub answer_read : Request → Text → Option Bytes → Files → Files
  answer_read request target none s = publish (mcu_read_timeout target request) s
  answer_read request target (some bytes) s = publish (content true target bytes request) s
