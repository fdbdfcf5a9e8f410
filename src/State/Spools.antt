-- ===== src/State/Spools.antt =====
-- Where the queues of the mailbox are kept.
use arduino_yun_bridge.Base.{
  arith, ap, some, ◌≢◌, ◌≤◌, codes, starts_with, ◌≡◌, Bytes, List, refl, false, true,
}
use arduino_yun_bridge.Storage.{works, returns, index_error, append, popleft}
use arduino_yun_bridge.Storage.Memory.{memory_loses}
use arduino_yun_bridge.Config.Validate.{is_volatile}
use arduino_yun_bridge.State.{Storage, create_spool}

-- With a root that passes the check for volatile paths, but is not below "/tmp/" (such as "/tmp" itself, or
-- a directory below "/run"), the queues of the mailbox are in memory, even if the directory could be
-- made: an item that is put into one cannot be taken out, while the database works.
pub volatile_root_loses :
    (rows : List Bytes) (item : Bytes) (cfg : Storage)
    → is_volatile cfg.file_system_root ≡ true
    → cfg.allow_non_tmp_paths ≡ false
    → starts_with (codes "/tmp/") cfg.file_system_root ≡ false
    → 1 ≤ cfg.mailbox_queue_limit
    → ((append works item (create_spool true rows cfg)).1 ≡ returns item)
      × ((popleft works (append works item (create_spool true rows cfg)).0).1 ≡ index_error)
volatile_root_loses rows item cfg volatile strict outside positive =
    let memory : (create_spool true rows cfg).in_file ≡ false =
      unfold create_spool in rw (strict, outside) refl in
    let limited : (create_spool true rows cfg).maxlen ≢ some 0 =
      unfold create_spool in ground (arith, strict, outside, positive) in
    let lost = memory_loses item (create_spool true rows cfg) memory limited in
    (lost.0, ap (λ r. r.1) lost.2)
