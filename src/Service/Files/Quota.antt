-- ===== src/Service/Files/Quota.antt =====
-- When a write is refused.
use arduino_yun_bridge.Base.{
  ◌≢◌, ℕ, ◌<◌, ◌≡◌, ◌↔◌, Option, none, some, List, arith, Bytes, Text, length,
}
use arduino_yun_bridge.Service.Files.{FileSystem, Files, refused, stored, write_with_quota}

module _ (fs : FileSystem) where
  stored_not_refused : (o : Option fs.Disk) (s : Files fs) → (stored fs o s).1 ≢ refused
  stored_not_refused none s = λ e. ground arith
  stored_not_refused (some d) s = λ e. ground arith

  -- Where the usage of the disk is known, a write is refused exactly if the disk has less room than the
  -- bytes take: neither the limit of a write nor the quota of the configuration is looked at.
  pub write_refused_iff :
      (path : List Text) (bytes : Bytes) (used free : ℕ) (s : Files fs)
      → fs.disk_usage s.disk ≡ some (used, free)
      → ((write_with_quota fs path bytes s).1 ≡ refused) ↔ (free < length bytes)
  unfolding write_with_quota
  write_refused_iff path bytes used free s known =
      let s' = record s { file_storage_bytes_used = used } in
      let not_refused =
        stored_not_refused (fs.write_bytes path bytes (fs.make_parents path s.disk)) s' in
      rw known (ground (arith, not_refused))
