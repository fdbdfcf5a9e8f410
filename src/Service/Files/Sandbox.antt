-- ===== src/Service/Files/Sandbox.antt =====
-- What the file handlers do to the files outside the root.
use arduino_yun_bridge.Base.{
  ◌-◌, length, drop, ◌++◌, ℕ, ◌≡◌, ◌≢◌, refl, ◌∙◌, Bool, true, false, Option, none, some, List, [],
  ◌∷◌, arith, Bytes, Text,
}
use arduino_yun_bridge.Topics.{TopicRoute}
use arduino_yun_bridge.Service.Pins.{Request}
use arduino_yun_bridge.Service.Files.{
  max_payload_size, iter_chunks, file_content, join, mcu_write_at, mcu_read_at, mcu_remove_at,
  receive_for, answer_write, answer_remove, send_all, send_content, on_mcu_file_write,
  on_mcu_file_read, on_mcu_file_remove, remainder, action, file_read, mcu_fs_prefix, FileSystem,
  remainder, action, is_relative_to, Written, PendingRead, Files, get_safe_path, stored, with_usage,
  write_with_quota, removed, answer_write, on_mcu_file_write, send_all, send_content,
  on_mcu_file_read, answer_remove, on_mcu_file_remove, on_mcu_file_read_resp, receive_all,
  result_of, answer_read, written, refused, write_error,
}
use arduino_yun_bridge.Service.Files.Requests.{
  handle_file, acted, handle_file_mcu_read, on_mcu, publish_write, publish_content, on_disk,
  locally, acted, handle_file,
}

module _ (fs : FileSystem) where
  -- The documented behaviour of a file system: a write or a removal changes no other file, and making
  -- directories changes no file.
  pub record IsFileSystem : Type 0 where
    pub write-other :
        (path q : List Text) (bytes : Bytes) (d d' : fs.Disk)
        → fs.write_bytes path bytes d ≡ some d'
        → q ≢ path
        → fs.read_bytes q d' ≡ fs.read_bytes q d
    pub unlink-other :
        (path q : List Text) (d d' : fs.Disk)
        → fs.unlink path d ≡ some d'
        → q ≢ path
        → fs.read_bytes q d' ≡ fs.read_bytes q d
    pub parents-all :
        (path q : List Text) (d : fs.Disk)
        → fs.read_bytes q (fs.make_parents path d) ≡ fs.read_bytes q d

  -- Below the root.
  unfoldable pub is_inside : List Text → Bool
  is_inside path = is_relative_to path (fs.resolve [])

module _ (fs : FileSystem) (i : IsFileSystem fs) (q : List Text)
    (outside : is_inside fs q ≡ false) where
  -- The file q reads as before.
  abbrev pub Keeps : Files fs → Files fs → Type 0
  Keeps s s' = fs.read_bytes q s'.disk ≡ fs.read_bytes q s.disk

  differs : (path : List Text) → is_inside fs path ≡ true → q ≢ path
  differs path inside = λ e. grind (arith, e, inside, outside)

  stored-Keeps :
      (path : List Text) (bytes : Bytes) (s : Files fs) (o : Option fs.Disk)
      → is_inside fs path ≡ true
      → fs.write_bytes path bytes (fs.make_parents path s.disk) ≡ o
      → Keeps s (stored fs o s).0
  stored-Keeps path bytes s none inside e = refl
  stored-Keeps path bytes s (some d) inside e =
      i.write-other path q bytes (fs.make_parents path s.disk) d e (differs path inside)
      ∙ i.parents-all path q s.disk

  write-Keeps :
      (path : List Text) (bytes : Bytes) (s : Files fs) (u : Option (ℕ × ℕ))
      → is_inside fs path ≡ true
      → Keeps s (with_usage fs u path bytes s).0
  write-Keeps path bytes s none inside = stored-Keeps path bytes s _ inside refl
  write-Keeps path bytes s (some (used, free)) inside =
      let kept =
        stored-Keeps path bytes (record s { file_storage_bytes_used = used })
          (fs.write_bytes path bytes (fs.make_parents path s.disk)) inside refl in
      ground (arith, kept)

  quota-Keeps :
      (path : List Text) (bytes : Bytes) (s : Files fs)
      → is_inside fs path ≡ true
      → Keeps s (write_with_quota fs path bytes s).0
  unfolding write_with_quota
  quota-Keeps path bytes s inside = write-Keeps path bytes s (fs.disk_usage s.disk) inside

  removed-Keeps :
      (path : List Text) (s : Files fs) (o : Option fs.Disk)
      → is_inside fs path ≡ true
      → fs.unlink path s.disk ≡ o
      → Keeps s (removed fs o s)
  removed-Keeps path s none inside e = refl
  removed-Keeps path s (some d) inside e = i.unlink-other path q s.disk d e (differs path inside)

  publish_write-Keeps :
      (request : Request) (target : Text) (s : Files fs) (w : Files fs × Written)
      → Keeps s w.0
      → Keeps s (publish_write fs request target w)
  publish_write-Keeps request target s (s', written) k = k
  publish_write-Keeps request target s (s', refused) k = k
  publish_write-Keeps request target s (s', write_error) k = k

  publish_content-Keeps :
      (request : Request) (target : Text) (s : Files fs) (o : Option Bytes)
      → Keeps s (publish_content fs request target o s)
  publish_content-Keeps request target s none = refl
  publish_content-Keeps request target s (some bytes) = refl

  on_disk-Keeps :
      (request : Request) (act target : Text) (path : List Text) (s : Files fs)
      → is_inside fs path ≡ true
      → Keeps s (on_disk fs request act target path s)
  on_disk-Keeps request act target path s inside =
      let wrote =
        publish_write-Keeps request target s (write_with_quota fs path request.payload s)
          (quota-Keeps path request.payload s inside) in
      let reading = publish_content-Keeps request target s (fs.read_bytes path s.disk) in
      let removing = removed-Keeps path s (fs.unlink path s.disk) inside refl in
      ground (arith, wrote, reading, removing)

  -- The result of the check of a path.
  safe_inside :
      (p : Text) (path : List Text) → get_safe_path fs p ≡ some path → is_inside fs path ≡ true
  unfolding get_safe_path is_inside
  safe_inside p path e = grind (arith, e)

  locally-Keeps :
      (request : Request) (act target : Text) (o : Option (List Text)) (s : Files fs)
      → get_safe_path fs target ≡ o
      → Keeps s (locally fs request act target o s)
  locally-Keeps request act target none s e = refl
  locally-Keeps request act target (some path) s e =
      on_disk-Keeps request act target path s (safe_inside target path e)

  receive-Keeps :
      (bytes : Bytes) (p : Option PendingRead) (s : Files fs) → Keeps s (receive_for fs bytes p s).0
  receive-Keeps bytes none s = refl
  receive-Keeps bytes (some p) s = refl

  resp-Keeps : (bytes : Bytes) (s : Files fs) → Keeps s (on_mcu_file_read_resp fs bytes s).0
  unfolding on_mcu_file_read_resp
  resp-Keeps bytes s = receive-Keeps bytes s.pending_mcu_read s

  receive_all-Keeps : (bs : List Bytes) (s : Files fs) → Keeps s (receive_all fs bs s)
  receive_all-Keeps [] s = refl
  receive_all-Keeps (b ∷ bs) s =
      receive_all-Keeps bs (on_mcu_file_read_resp fs b s).0 ∙ resp-Keeps b s

  answer_read-Keeps :
      (request : Request) (target : Text) (o : Option Bytes) (s : Files fs)
      → Keeps s (answer_read fs request target o s)
  answer_read-Keeps request target none s = refl
  answer_read-Keeps request target (some bytes) s = refl

  mcu_read-Keeps :
      (sent : Bool) (arrivals : List Bytes) (request : Request) (target : Text) (s : Files fs)
      → Keeps s (handle_file_mcu_read fs sent arrivals request target s)
  unfolding handle_file_mcu_read
  mcu_read-Keeps sent arrivals request target s =
      let asked = record s {
        file_packets = s.file_packets ++ (file_read (drop (length mcu_fs_prefix) target) ∷ []);
        pending_mcu_read = some (record { chunks = []; result = none });
      } in
      let waited = receive_all fs arrivals asked in
      let received = receive_all-Keeps arrivals asked in
      let answered =
        answer_read-Keeps request target (result_of fs waited.pending_mcu_read) waited in
      ground (arith, received, answered)

  on_mcu-Keeps :
      (sent : Bool) (arrivals : List Bytes) (request : Request) (act target : Text) (s : Files fs)
      → Keeps s (on_mcu fs sent arrivals request act target s)
  on_mcu-Keeps sent arrivals request act target s =
      let reading = mcu_read-Keeps sent arrivals request target s in ground (arith, reading)

  acted-Keeps :
      (sent : Bool) (arrivals : List Bytes) (request : Request) (target : Text) (act : Option Text)
      (s : Files fs)
      → Keeps s (acted fs sent arrivals request target act s)
  acted-Keeps sent arrivals request target none s = refl
  acted-Keeps sent arrivals request target (some act) s =
      let mcu = on_mcu-Keeps sent arrivals request act target s in
      let local = locally-Keeps request act target (get_safe_path fs target) s refl in
      ground (arith, mcu, local)

  handle_file-Keeps :
      (sent : Bool) (arrivals : List Bytes) (r : TopicRoute) (request : Request) (s : Files fs)
      → Keeps s (handle_file fs sent arrivals r request s)
  unfolding handle_file
  handle_file-Keeps sent arrivals r request s =
      acted-Keeps sent arrivals request (join (remainder r)) (action r) s

  answer_write-Keeps :
      (s : Files fs) (w : Files fs × Written) → Keeps s w.0 → Keeps s (answer_write fs w)
  answer_write-Keeps s (s', written) k = k
  answer_write-Keeps s (s', refused) k = k
  answer_write-Keeps s (s', write_error) k = k

  mcu_write-Keeps :
      (bytes : Bytes) (s : Files fs) (p : Text) (o : Option (List Text))
      → get_safe_path fs p ≡ o
      → Keeps s (mcu_write_at fs bytes o s)
  mcu_write-Keeps bytes s p none e = refl
  mcu_write-Keeps bytes s p (some path) e =
      answer_write-Keeps s (write_with_quota fs path bytes s)
        (quota-Keeps path bytes s (safe_inside p path e))

  send_all-Keeps : (cs : List Bytes) (s : Files fs) → Keeps s (send_all fs cs s)
  send_all-Keeps [] s = refl
  send_all-Keeps (c ∷ cs) s =
      send_all-Keeps cs (record s { file_packets = s.file_packets ++ (file_content c ∷ []) })

  send_content-Keeps : (o : Option Bytes) (s : Files fs) → Keeps s (send_content fs o s)
  send_content-Keeps none s = refl
  send_content-Keeps (some bytes) s =
      let sending = send_all-Keeps (iter_chunks bytes (max_payload_size - 3)) s in
      ground (arith, sending)

  mcu_read_at-Keeps : (o : Option (List Text)) (s : Files fs) → Keeps s (mcu_read_at fs o s)
  mcu_read_at-Keeps none s = refl
  mcu_read_at-Keeps (some path) s =
      let sending = send_content-Keeps (fs.read_bytes path s.disk) s in ground (arith, sending)

  answer_remove-Keeps :
      (path : List Text) (s : Files fs) (o : Option fs.Disk)
      → is_inside fs path ≡ true
      → fs.unlink path s.disk ≡ o
      → Keeps s (answer_remove fs o s)
  answer_remove-Keeps path s none inside e = refl
  answer_remove-Keeps path s (some d) inside e =
      i.unlink-other path q s.disk d e (differs path inside)

  mcu_remove-Keeps :
      (p : Text) (o : Option (List Text)) (s : Files fs)
      → get_safe_path fs p ≡ o
      → Keeps s (mcu_remove_at fs o s)
  mcu_remove-Keeps p none s e = refl
  mcu_remove-Keeps p (some path) s e =
      let removing =
        answer_remove-Keeps path s (fs.unlink path s.disk) (safe_inside p path e) refl in
      ground (arith, removing)

  -- A file outside the root reads as before after a request of the cloud about files, whatever its topic
  -- and its payload, and after a frame of the MCU that writes, reads or removes a file, if the file
  -- system writes and removes only the file it is told to.
  pub files-confined :
      (sent : Bool) (arrivals : List Bytes) (r : TopicRoute) (request : Request) (p : Text)
      (bytes : Bytes) (s : Files fs)
      → Keeps s (handle_file fs sent arrivals r request s)
        × Keeps s (on_mcu_file_write fs p bytes s)
        × Keeps s (on_mcu_file_read fs p s)
        × Keeps s (on_mcu_file_remove fs p s)
  unfolding on_mcu_file_write on_mcu_file_read on_mcu_file_remove
  files-confined sent arrivals r request p bytes s = (
    handle_file-Keeps sent arrivals r request s,
    mcu_write-Keeps bytes s p (get_safe_path fs p) refl,
    mcu_read_at-Keeps (get_safe_path fs p) s,
    mcu_remove-Keeps p (get_safe_path fs p) s refl,
  )
