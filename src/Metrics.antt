-- ===== src/Metrics.antt =====
-- The periodic reports of mcubridge/mcubridge/metrics.py, and the watchdog of
-- mcubridge/mcubridge/watchdog.py. Times are milliseconds, but for the seconds of an expiry and of a tick. The
-- printed snapshots are arguments. The Prometheus server is left out.
mod Reports
use arduino_yun_bridge.Base.{
  ◌*◌, ◌++◌, is_empty, ◌==◌, ◌/◌, ltb, codes, ◌+◌, Bool, Option, max, Bytes, List, Text, ℕ,
  if◌then◌else◌, none, some, [], ◌∷◌,
}
use arduino_yun_bridge.Topics.{topic_path}
use arduino_yun_bridge.Cloud.{Publish}

-- What the messages are made of: `RuntimeState` and the snapshot of the daemon's metrics.
pub record Metrics : Type 0 where
  pub cloud_topic_prefix : Text
  pub cloud_spool_degraded : Bool
  pub cloud_spool_failure_reason : Text
  pub file_storage_limit_rejections : ℕ
  pub file_write_limit_rejections : ℕ
  pub watchdog_enabled : Bool
  -- `str(snapshot.watchdog_interval)`
  pub watchdog_interval : Text

abbrev spool_props : Metrics → List (Text × Text)
spool_props s =
    if s.cloud_spool_degraded
    then (
      codes "bridge-spool",
      if is_empty s.cloud_spool_failure_reason
          then codes "unknown"
          else s.cloud_spool_failure_reason,
    )
      ∷ []
    else []

abbrev file_props : Metrics → List (Text × Text)
file_props s =
    if ltb 0 s.file_storage_limit_rejections
    then (codes "bridge-files", codes "quota-blocked") ∷ []
    else if ltb 0 s.file_write_limit_rejections
    then (codes "bridge-files", codes "write-limit") ∷ []
    else []

abbrev watchdog_props : Metrics → List (Text × Text)
watchdog_props s =
    if s.watchdog_enabled
    then (codes "bridge-watchdog-enabled", codes "1")
      ∷ (codes "bridge-watchdog-interval", s.watchdog_interval)
      ∷ []
    else (codes "bridge-watchdog-enabled", codes "0") ∷ []

-- `printed` is the printed snapshot.
unfoldable pub build_metrics_message : Metrics → Bytes → Publish
unfolding topic_path
build_metrics_message s printed = record {
  topic_name = topic_path s.cloud_topic_prefix (codes "system") (codes "metrics" ∷ []);
  payload = printed;
  correlation_data = none;
  user_properties = spool_props s ++ (file_props s ++ watchdog_props s);
}

pub data Flavor : Type 0 where
  handshake summary : Flavor

abbrev flavor_name : Flavor → Text
flavor_name handshake = codes "handshake"
flavor_name summary = codes "summary"

unfoldable pub build_bridge_snapshot_message : Metrics → Flavor → Bytes → Publish
unfolding topic_path
build_bridge_snapshot_message s flavor printed = record {
  topic_name =
      topic_path s.cloud_topic_prefix (codes "system")
        (codes "bridge" ∷ flavor_name flavor ∷ codes "value" ∷ []);
  payload = printed;
  correlation_data = none;
  user_properties = (codes "bridge-snapshot", flavor_name flavor) ∷ [];
}

-- `math.ceil` of milliseconds, in seconds
abbrev ceil : ℕ → ℕ
ceil n = (n + 999) / 1000

-- `max(1, math.ceil(max(min_interval, interval)))`
abbrev pub tick_seconds : ℕ → ℕ → ℕ
tick_seconds min_interval interval = max 1 (ceil (max min_interval interval))

-- `publish_metrics`: the seconds of the tick, and the expiry of its message; none is a ValueError.
unfoldable pub metrics_schedule : ℕ → ℕ → Option (ℕ × ℕ)
metrics_schedule min_interval interval =
    if interval == 0
    then none
    else some (tick_seconds min_interval interval, tick_seconds min_interval interval * 2)

-- `publish_bridge_snapshots`: the seconds between the reports of a flavor, if it is not switched off.
unfoldable pub snapshot_schedule : ℕ → ℕ → Option ℕ
snapshot_schedule min_interval interval =
    if interval == 0 then none else some (tick_seconds min_interval interval)

-- `WatchdogKeepalive`
pub record Watchdog : Type 0 where
  pub interval : ℕ
  pub watchdog_beats : ℕ
  pub last_watchdog_beat : ℕ

abbrev min_interval : ℕ
min_interval = 500

unfoldable pub set_interval : ℕ → Watchdog → Watchdog
set_interval value d = record d { interval = max min_interval value }

-- `kick`: whether the write works, and the time.
unfoldable pub kick : Bool → ℕ → Watchdog → Watchdog
kick write_ok now d =
    if write_ok
    then record d { watchdog_beats = d.watchdog_beats + 1; last_watchdog_beat = now }
    else d
