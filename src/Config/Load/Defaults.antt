-- ===== src/Config/Load/Defaults.antt =====
-- `get_default_config` of mcubridge/mcubridge/config/common.py, with the constants of
-- mcubridge/mcubridge/config/const.py and of tools/protocol/mcubridge.proto. The conversion of a message
-- to a dict, `json_format.MessageToDict`, is a parameter.
use arduino_yun_bridge.Base.{false, true, is_empty, ◌≡◌, codes, Text, List, Bytes, ℕ, some, [], ◌∷◌}
use arduino_yun_bridge.Base.Assoc.{lookup, text_key}
use arduino_yun_bridge.Base.Ints.{pos}
use arduino_yun_bridge.Config.Coerce.{Value, text, integer, real, truth, bytes, items}

abbrev pub default_secret : Bytes
default_secret = codes "failsafe_secret_mode"

-- Its base64 text.
abbrev pub encoded_secret : Text
encoded_secret = codes "ZmFpbHNhZmVfc2VjcmV0X21vZGU="

-- `base64` is the text that stands for a field of bytes, `seconds` the float of a time in milliseconds.
pub record Json (F : Type 0) : Type 0 where
  pub to_dict : List (Text × Value F) → List (Text × Value F)
  pub base64 : Bytes → Text
  pub seconds : ℕ → F

-- The documented behaviour: a field of bytes that is set becomes its base64 text, as RFC 4648 has it.
pub record IsJson {F : Type 0} (j : Json F) : Type 0 where
  pub bytes_encoded :
      (k : Text) (bs : Bytes) (fields : List (Text × Value F))
      → lookup k fields ≡ some (bytes bs)
      → is_empty bs ≡ false
      → lookup k (j.to_dict fields) ≡ some (text (j.base64 bs))
  pub secret_encoded : j.base64 default_secret ≡ encoded_secret

module _ {F : Type 0} where
  abbrev number : ℕ → Value F
  number n = integer (pos n)

  -- The fields that the message is made with.
  unfoldable pub default_fields : (ℕ → F) → List (Text × Value F)
  default_fields seconds =
      (codes "serial_port", text (codes "/dev/ttyATH0"))
      ∷ (codes "serial_baud", number 115200)
      ∷ (codes "serial_safe_baud", number 115200)
      ∷ (codes "cloud_host", text (codes "127.0.0.1"))
      ∷ (codes "cloud_port", number 8443)
      ∷ (codes "cloud_tls", truth true)
      ∷ (codes "cloud_cafile", text (codes "/etc/ssl/certs/ca-certificates.crt"))
      ∷ (codes "topic_prefix", text (codes "br"))
      ∷ (codes "allowed_commands", items [])
      ∷ (codes "file_system_root", text (codes "/tmp/yun_files"))
      ∷ (codes "process_timeout", number 10)
      ∷ (codes "cloud_tls_insecure", truth false)
      ∷ (codes "file_write_max_bytes", number 262144)
      ∷ (codes "file_storage_quota_bytes", number 8388608)
      ∷ (codes "cloud_queue_limit", number 256)
      ∷ (codes "reconnect_delay", number 5)
      ∷ (codes "status_interval", number 5)
      ∷ (codes "debug", truth false)
      ∷ (codes "console_queue_limit_bytes", number 16384)
      ∷ (codes "mailbox_queue_limit", number 64)
      ∷ (codes "mailbox_queue_bytes_limit", number 65536)
      ∷ (codes "pending_pin_request_limit", number 32)
      ∷ (codes "serial_retry_timeout", real (seconds 10000))
      ∷ (codes "serial_response_timeout", real (seconds 20000))
      ∷ (codes "serial_retry_attempts", number 5)
      ∷ (codes "serial_fallback_threshold", number 5)
      ∷ (codes "serial_handshake_min_interval", real (seconds 0))
      ∷ (codes "serial_handshake_fatal_failures", number 15)
      ∷ (codes "cloud_enabled", truth true)
      ∷ (codes "watchdog_enabled", truth true)
      ∷ (codes "watchdog_interval", real (seconds 10000))
      ∷ (codes "serial_shared_secret", bytes default_secret)
      ∷ (codes "cloud_spool_dir", text (codes "/tmp/mcubridge/spool"))
      ∷ (codes "process_max_output_bytes", number 65536)
      ∷ (codes "process_max_concurrent", number 4)
      ∷ (codes "metrics_enabled", truth false)
      ∷ (codes "metrics_host", text (codes "127.0.0.1"))
      ∷ (codes "metrics_port", number 9130)
      ∷ (codes "bridge_summary_interval", real (seconds 60000))
      ∷ (codes "bridge_handshake_interval", real (seconds 300000))
      ∷ (codes "allow_non_tmp_paths", truth false)
      ∷ (codes "cloud_http3_enabled", truth false)
      ∷ (codes "cloud_http3_port", number 8443)
      ∷ (codes "cloud_http3_congestion_control", text (codes "bbr"))
      ∷ []

  unfoldable pub get_default_config : Json F → List (Text × Value F)
  unfolding default_fields
  get_default_config j = j.to_dict (default_fields j.seconds)
