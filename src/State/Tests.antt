-- ===== src/State/Tests.antt =====
-- Two tasks, and a root in the RAM disk of the system.
use arduino_yun_bridge.Base.{arith, ◌≡◌, true, false, codes, refl, [], ◌∷◌}
use arduino_yun_bridge.Storage.{works, returns, index_error, append, popleft}
use arduino_yun_bridge.State.{Storage, create_spool}
use arduino_yun_bridge.State.Spools.{volatile_root_loses}

abbrev ram : Storage
ram = record {
  allow_non_tmp_paths = false;
  file_system_root = codes "/run/yun_files";
  mailbox_queue_limit = 64;
}

volatile_root_loses_example :
    ((append works (1 ∷ 2 ∷ []) (create_spool true [] ram)).1 ≡ returns (1 ∷ 2 ∷ []))
    × ((popleft works (append works (1 ∷ 2 ∷ []) (create_spool true [] ram)).0).1 ≡ index_error)
volatile_root_loses_example = volatile_root_loses [] (1 ∷ 2 ∷ []) ram refl refl refl (omega arith)
