-- ===== src/Config/Validate.antt =====
-- `validate_config` of mcubridge/mcubridge/protocol/structures.py. Times are milliseconds. The fields of the
-- authorization are those of Service/Access.antt.
use arduino_yun_bridge.Base.{
  ℕ, ◌+◌, ◌*◌, ◌≤◌, ◌≡◌, refl, Bool, true, false, ◌&&◌, ◌||◌, not, Option, none, some, List, [],
  ◌∷◌, All, arith, leb, ltb, ◌==◌, if◌then◌else◌, Bytes, Text, codes, text_eq, is_empty, any,
  starts_with,
}
use arduino_yun_bridge.Topics.{segments_of}
use arduino_yun_bridge.Service.Access.{fields}
use arduino_yun_bridge.Config.{create_allowed_policy}

-- `pb.RuntimeConfig`, as far as this code reads or writes it.
pub record RuntimeConfig : Type 0 where
  pub allowed_commands : List Text
  pub allowed_policy : List Text
  pub topic_authorization : Text → Bool
  pub topic_prefix : Text
  pub serial_response_timeout : ℕ
  pub serial_retry_timeout : ℕ
  pub watchdog_enabled : Bool
  pub watchdog_interval : ℕ
  pub serial_shared_secret : Bytes
  pub file_storage_quota_bytes : ℕ
  pub file_write_max_bytes : ℕ
  pub mailbox_queue_bytes_limit : ℕ
  pub mailbox_queue_limit : ℕ
  pub allow_non_tmp_paths : Bool
  pub cloud_spool_dir : Text
  pub file_system_root : Text

-- The ValueErrors.
pub data Invalid : Type 0 where
  no_topic_segment response_timeout_too_short watchdog_too_short : Invalid
  no_secret placeholder_secret weak_secret : Invalid
  quota_too_small mailbox_bytes_too_few spool_not_volatile root_not_volatile : Invalid

abbrev has_byte : ℕ → Bytes → Bool
has_byte b bs = any (λ c. c == b) bs

-- `len(set(bs))`
abbrev pub distinct : Bytes → ℕ
distinct [] = 0
distinct (b ∷ bs) = let rest = distinct bs in if has_byte b bs then rest else rest + 1

abbrev pub volatile_storage_paths : List Text
volatile_storage_paths = codes "/tmp" ∷ codes "/var/run" ∷ codes "/run" ∷ codes "/dev/shm" ∷ []

abbrev pub is_volatile : Text → Bool
is_volatile path = any (λ p. starts_with p path) volatile_storage_paths

-- One `if` that raises: its condition and its error.
abbrev pub first_failure : List (Bool × Invalid) → Option Invalid
first_failure [] = none
first_failure ((failed, e) ∷ rest) = if failed then some e else first_failure rest

-- The conditions, in their order.
abbrev pub checks : RuntimeConfig → List (Bool × Invalid)
checks cfg =
    (is_empty cfg.topic_prefix || is_empty (segments_of cfg.topic_prefix), no_topic_segment)
    ∷ (ltb cfg.serial_response_timeout (cfg.serial_retry_timeout * 2), response_timeout_too_short)
    ∷ (cfg.watchdog_enabled && ltb cfg.watchdog_interval 500, watchdog_too_short)
    ∷ (is_empty cfg.serial_shared_secret, no_secret)
    ∷ (text_eq cfg.serial_shared_secret (codes "changeme123"), placeholder_secret)
    ∷ (
      ltb (distinct cfg.serial_shared_secret) 4
          && not (text_eq cfg.serial_shared_secret (codes "failsafe_secret_mode")),
      weak_secret,
    )
    ∷ (ltb cfg.file_storage_quota_bytes cfg.file_write_max_bytes, quota_too_small)
    ∷ (ltb cfg.mailbox_queue_bytes_limit cfg.mailbox_queue_limit, mailbox_bytes_too_few)
    ∷ (not cfg.allow_non_tmp_paths && not (is_volatile cfg.cloud_spool_dir), spool_not_volatile)
    ∷ (not cfg.allow_non_tmp_paths && not (is_volatile cfg.file_system_root), root_not_volatile)
    ∷ []

abbrev pub check : RuntimeConfig → Option Invalid
check cfg = first_failure (checks cfg)

abbrev pub allows_any : (Text → Bool) → List Text → Bool
allows_any auth fs = any auth fs

-- The policy, and the authorization: one that allows nothing becomes one that allows everything.
unfoldable pub normalise : RuntimeConfig → RuntimeConfig
unfolding create_allowed_policy
normalise cfg = record cfg {
  allowed_policy = create_allowed_policy cfg.allowed_commands;
  allowed_commands = create_allowed_policy cfg.allowed_commands;
  topic_authorization =
      if allows_any cfg.topic_authorization fields then cfg.topic_authorization else λ field. true;
}

-- The configuration is changed in place before the checks.
unfoldable pub validate_config : RuntimeConfig → RuntimeConfig × Option Invalid
unfolding normalise
validate_config cfg = (normalise cfg, check (normalise cfg))

-- What a valid configuration promises.
pub record IsValid (cfg : RuntimeConfig) : Type 0 where
  pub segment : is_empty (segments_of cfg.topic_prefix) ≡ false
  pub response : cfg.serial_retry_timeout * 2 ≤ cfg.serial_response_timeout
  pub secret : is_empty cfg.serial_shared_secret ≡ false
  pub no_placeholder : text_eq cfg.serial_shared_secret (codes "changeme123") ≡ false
  pub strong :
      (leb 4 (distinct cfg.serial_shared_secret)
        || text_eq cfg.serial_shared_secret (codes "failsafe_secret_mode"))
      ≡ true
  pub quota : cfg.file_write_max_bytes ≤ cfg.file_storage_quota_bytes
  pub mailbox : cfg.mailbox_queue_limit ≤ cfg.mailbox_queue_bytes_limit
  pub paths :
      (cfg.allow_non_tmp_paths
        || (is_volatile cfg.cloud_spool_dir && is_volatile cfg.file_system_root))
      ≡ true
  pub watchdog : (not cfg.watchdog_enabled || leb 500 cfg.watchdog_interval) ≡ true
  pub open_somewhere : allows_any cfg.topic_authorization fields ≡ true

opened :
    (b : Bool) (auth : Text → Bool)
    → allows_any auth fields ≡ b
    → allows_any (if b then auth else λ field. true) fields ≡ true
opened true auth e = e
opened false auth e = refl

normalise_opens :
    (cfg : RuntimeConfig) → allows_any (normalise cfg).topic_authorization fields ≡ true
unfolding normalise
normalise_opens cfg =
    opened (allows_any cfg.topic_authorization fields) cfg.topic_authorization refl

none_failed :
    (rows : List (Bool × Invalid)) → first_failure rows ≡ none → All (λ r. r.0 ≡ false) rows
none_failed [] e = tt
none_failed ((true, x) ∷ rest) e = absurd (ground (arith, e))
none_failed ((false, x) ∷ rest) e = (refl, none_failed rest e)

distinct_lem : (n : ℕ) (b : Bool) → (ltb n 4 && not b) ≡ false → (leb 4 n || b) ≡ true
distinct_lem n b e = ground (arith, e)

paths_lem :
    (a b d : Bool) → (not a && not b) ≡ false → (not a && not d) ≡ false → (a || (b && d)) ≡ true
paths_lem a b d e f = ground (arith, e, f)

segment_lem : (a b : Bool) → (a || b) ≡ false → b ≡ false
segment_lem a b e = ground (arith, e)

watchdog_lem : (b : Bool) (n : ℕ) → (b && ltb n 500) ≡ false → (not b || leb 500 n) ≡ true
watchdog_lem b n e = ground (arith, e)

bound_lem : (m n : ℕ) → ltb n m ≡ false → m ≤ n
bound_lem m n e = ground (arith, e)

-- A configuration that passes has what each check asks for, and its authorization allows some action.
pub validate_config-IsValid :
    (cfg : RuntimeConfig) → (validate_config cfg).1 ≡ none → IsValid (validate_config cfg).0
unfolding validate_config
validate_config-IsValid cfg passed =
    let (
      prefix,
      (response', (dog, (secret', (held, (weak, (quota', (mail, (spool, (root, end))))))))),
    ) =
      none_failed (checks (normalise cfg)) passed in
    let n = normalise cfg in
    record {
      segment =
          segment_lem (is_empty n.topic_prefix) (is_empty (segments_of n.topic_prefix)) prefix;
      response = bound_lem (n.serial_retry_timeout * 2) n.serial_response_timeout response';
      secret = secret';
      no_placeholder = held;
      strong =
          distinct_lem (distinct n.serial_shared_secret)
            (text_eq n.serial_shared_secret (codes "failsafe_secret_mode")) weak;
      quota = bound_lem n.file_write_max_bytes n.file_storage_quota_bytes quota';
      mailbox = bound_lem n.mailbox_queue_limit n.mailbox_queue_bytes_limit mail;
      paths =
          paths_lem n.allow_non_tmp_paths (is_volatile n.cloud_spool_dir)
            (is_volatile n.file_system_root) spool root;
      watchdog = watchdog_lem n.watchdog_enabled n.watchdog_interval dog;
      open_somewhere = normalise_opens cfg;
    }

-- A configuration whose authorization denies every action gets one that allows every field, whether the
-- configuration passes or not.
pub validate_config-opens :
    (cfg : RuntimeConfig) (field : Text)
    → allows_any cfg.topic_authorization fields ≡ false
    → (validate_config cfg).0.topic_authorization field ≡ true
unfolding validate_config normalise
validate_config-opens cfg field denied = rw denied
