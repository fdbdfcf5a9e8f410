-- ===== src/Config/Tests.antt =====
-- A configuration that denies everything, and a policy of two names.
use arduino_yun_bridge.Base.{ℕ, ◌≡◌, refl, Bool, true, false, [], ◌∷◌, Text, codes}
use arduino_yun_bridge.Topics.{split}
use arduino_yun_bridge.Config.{create_allowed_policy, is_command_allowed}
use arduino_yun_bridge.Config.Policy.{is_command_allowed_lem}
use arduino_yun_bridge.Config.Validate.{
  RuntimeConfig, validate_config, IsValid, validate_config-IsValid, normalise,
}

abbrev closed : RuntimeConfig
closed = record {
  allowed_commands = codes "echo, uptime" ∷ [];
  allowed_policy = [];
  topic_authorization = λ field. false;
  topic_prefix = codes "br";
  serial_response_timeout = 3000;
  serial_retry_timeout = 1000;
  watchdog_enabled = false;
  watchdog_interval = 0;
  serial_shared_secret = codes "abcd";
  file_storage_quota_bytes = 10;
  file_write_max_bytes = 5;
  mailbox_queue_bytes_limit = 10;
  mailbox_queue_limit = 5;
  allow_non_tmp_paths = false;
  cloud_spool_dir = codes "/tmp/spool";
  file_system_root = codes "/tmp/files";
}

validate_config-IsValid_example : IsValid (validate_config closed).0
unfolding validate_config normalise split
validate_config-IsValid_example = validate_config-IsValid closed refl

abbrev no_sets : Text → ℕ → Bool
no_sets inside c = false

is_command_allowed_lem_example :
    is_command_allowed no_sets
      (create_allowed_policy (codes "echo, uptime" ∷ []))
      (codes " Echo x ")
    ≡ true
is_command_allowed_lem_example =
    is_command_allowed_lem no_sets (codes "echo, uptime" ∷ []) (codes " Echo x ") (codes "Echo")
      (codes "x" ∷ [])
      ((refl, (refl, (refl, (refl, tt)))), ((refl, (refl, (refl, (refl, (refl, (refl, tt)))))), tt))
      refl
