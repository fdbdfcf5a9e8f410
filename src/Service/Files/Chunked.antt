-- ===== src/Service/Files/Chunked.antt =====
-- A file in several packets: what the daemon sends of its files, and what it makes of the MCU's.
use arduino_yun_bridge.Base.{
  map, drop, ◌≤◌, ◌≡◌, refl, sym, ap, ◌∙◌, true, Option, none, some, List, [], ◌∷◌, ◌++◌, arith,
  Bytes, Text, All, length,
}
use mathlib.Core.List.{append-nil, append_assoc}
use arduino_yun_bridge.Console.Chunks.{iter_chunks_lem, concat}
use arduino_yun_bridge.Service.Pins.{Request}
use arduino_yun_bridge.Service.Files.{
  iter_chunks, get_safe_path, file_content, on_mcu_file_read, send_content, send_all,
  mcu_read_timeout, content, answer_read, mcu_fs_prefix, result_of, receive_all, file_read,
  on_mcu_file_read_resp, FileSystem, Files,
}
use arduino_yun_bridge.Service.Files.Requests.{handle_file_mcu_read}

-- A content that is not the end of the file.
abbrev pub IsPart : Bytes → Type 0
IsPart chunk = 1 ≤ length chunk

-- A content that a frame has room for.
abbrev pub FitsFrame : Bytes → Type 0
FitsFrame chunk = length chunk ≤ 61

fits : (cs : List Bytes) → All (λ c. (1 ≤ length c) × (length c ≤ 61)) cs → All FitsFrame cs
fits [] all = tt
fits (c ∷ cs) ((part, fit), all) = (fit, fits cs all)

module _ (fs : FileSystem) where
  abbrev waiting : List Bytes → Option Bytes → Files fs → Files fs
  waiting xs r s = record s { pending_mcu_read = some (record { chunks = xs; result = r }) }

  parts_gathered :
      (cs xs : List Bytes) (s : Files fs)
      → All IsPart cs
      → receive_all fs cs (waiting xs none s) ≡ waiting (xs ++ cs) none s
  unfolding on_mcu_file_read_resp
  parts_gathered [] xs s parts = ap (λ ys. waiting ys none s) (sym (append-nil xs))
  parts_gathered ([] ∷ cs) xs s (part, parts) = absurd (omega arith)
  parts_gathered ((b ∷ bs) ∷ cs) xs s (part, parts) =
      parts_gathered cs (xs ++ ((b ∷ bs) ∷ [])) s parts
      ∙ ap (λ ys. waiting ys none s) (append_assoc xs ((b ∷ bs) ∷ []) cs)

  -- Once there is a result, it stays.
  result_stays :
      (rest xs : List Bytes) (bytes : Bytes) (s : Files fs)
      → (result_of fs (receive_all fs rest (waiting xs (some bytes) s)).pending_mcu_read
          ≡ some bytes)
        × ((receive_all fs rest (waiting xs (some bytes) s)).file_reports ≡ s.file_reports)
  unfolding on_mcu_file_read_resp
  result_stays [] xs bytes s = (refl, refl)
  result_stays ([] ∷ rest) xs bytes s = result_stays rest xs bytes s
  result_stays ((b ∷ bs) ∷ rest) xs bytes s = result_stays rest (xs ++ ((b ∷ bs) ∷ [])) bytes s

  receive_all-append :
      (cs rest : List Bytes) (s : Files fs)
      → receive_all fs (cs ++ rest) s ≡ receive_all fs rest (receive_all fs cs s)
  receive_all-append [] rest s = refl
  receive_all-append (c ∷ cs) rest s = receive_all-append cs rest (on_mcu_file_read_resp fs c s).0

  end_received :
      (cs rest : List Bytes) (s : Files fs)
      → All IsPart cs
      → receive_all fs (cs ++ ([] ∷ rest)) (waiting [] none s)
        ≡ receive_all fs rest (waiting cs (some (concat cs)) s)
  unfolding on_mcu_file_read_resp
  end_received cs rest s parts =
      receive_all-append cs ([] ∷ rest) (waiting [] none s)
      ∙ ap (λ t. receive_all fs ([] ∷ rest) t) (parts_gathered cs [] s parts)

  abbrev asked : Text → Files fs → Files fs
  asked target s = record s {
    file_packets = s.file_packets ++ (file_read (drop (length mcu_fs_prefix) target) ∷ []);
  }

  answer_of :
      (request : Request) (target : Text) (bytes : Bytes) (s s' : Files fs)
      → result_of fs s'.pending_mcu_read ≡ some bytes
      → s'.file_reports ≡ s.file_reports
      → (answer_read fs request target (result_of fs s'.pending_mcu_read) s').file_reports
        ≡ (s.file_reports ++ (content true target bytes request ∷ []))
  answer_of request target bytes s s' e same = rw (e, same)

  -- A read of the MCU's file is answered with the contents that came before the first empty one, put
  -- together in their order, whatever comes after it. Without an empty content in time, the answer is
  -- the report of a timeout. Both leave no read waiting.
  pub handle_file_mcu_read-answers :
      (cs rest : List Bytes) (request : Request) (target : Text) (s : Files fs)
      → All IsPart cs
      → ((handle_file_mcu_read fs true (cs ++ ([] ∷ rest)) request target s).file_reports
          ≡ (s.file_reports ++ (content true target (concat cs) request ∷ [])))
        × ((handle_file_mcu_read fs true cs request target s).file_reports
            ≡ (s.file_reports ++ (mcu_read_timeout target request ∷ [])))
        × ((handle_file_mcu_read fs true (cs ++ ([] ∷ rest)) request target s).pending_mcu_read
            ≡ none)
        × ((handle_file_mcu_read fs true cs request target s).pending_mcu_read ≡ none)
  unfolding handle_file_mcu_read
  handle_file_mcu_read-answers cs rest request target s parts =
      let stays = result_stays rest cs (concat cs) (asked target s) in
      let ended = end_received cs rest (asked target s) parts in
      let gathered = parts_gathered cs [] (asked target s) parts in
      (
        ap (λ w. (answer_read fs request target (result_of fs w.pending_mcu_read) w).file_reports)
              ended
            ∙ answer_of request target (concat cs) s
                (receive_all fs rest (waiting cs (some (concat cs)) (asked target s))) stays.0
                stays.1,
        ap (λ w. (answer_read fs request target (result_of fs w.pending_mcu_read) w).file_reports)
            gathered,
        refl,
        refl,
      )

  send_all-packets :
      (cs : List Bytes) (s : Files fs)
      → (send_all fs cs s).file_packets ≡ (s.file_packets ++ map file_content cs)
  send_all-packets [] s = sym (append-nil s.file_packets)
  send_all-packets (c ∷ cs) s =
      send_all-packets cs (record s { file_packets = s.file_packets ++ (file_content c ∷ []) })
      ∙ append_assoc s.file_packets (file_content c ∷ []) (map file_content cs)

  -- What was sent is one content after the other, which fit and make up the bytes.
  pub record Sends (bytes : Bytes) (s s' : Files fs) : Type 0 where
    pub contents : List Bytes
    pub sent_all : s'.file_packets ≡ (s.file_packets ++ map file_content contents)
    pub whole : concat contents ≡ bytes
    pub fit : All FitsFrame contents

  content_sent : (bytes : Bytes) (s : Files fs) → Sends bytes s (send_content fs (some bytes) s)
  content_sent [] s = record {
    contents = [] ∷ [];
    sent_all = refl;
    whole = refl;
    fit = (omega arith, tt);
  }
  content_sent (b ∷ bs) s =
      let made = iter_chunks_lem (b ∷ bs) 61 (omega arith) in
      record {
        contents = iter_chunks (b ∷ bs) 61;
        sent_all = send_all-packets (iter_chunks (b ∷ bs) 61) s;
        whole = made.0;
        fit = fits (iter_chunks (b ∷ bs) 61) made.1;
      }

  -- When the MCU reads a file below the root that can be read, what is sent is the bytes of the file,
  -- in contents of at most 61 bytes; of an empty file, one empty content.
  pub on_mcu_file_read-Sends :
      (p : Text) (path : List Text) (bytes : Bytes) (s : Files fs)
      → get_safe_path fs p ≡ some path
      → fs.is_file path s.disk ≡ true
      → fs.read_bytes path s.disk ≡ some bytes
      → Sends bytes s (on_mcu_file_read fs p s)
  unfolding on_mcu_file_read
  on_mcu_file_read-Sends p path bytes s safe is readable =
      rw (safe, is, readable) (content_sent bytes s)
