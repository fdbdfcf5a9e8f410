-- ===== src/Handshake/Failure.antt =====
-- The failure path of services/handshake.py: `handle_handshake_failure` and what it calls.
use arduino_yun_bridge.Base.{
  ℕ, ◌+◌, ◌*◌, ◌-◌, ◌^◌, Bool, true, false, ◌||◌, Option, none, some, leb, ltb, if◌then◌else◌, min,
  max,
}
use arduino_yun_bridge.Link.{
  Link, Reason, Detail, no_detail, failure_streak_exceeded, sync_auth_mismatch,
  mark_transport_connected, handshake_duration_since_start, build_handshake_snapshot,
}
use arduino_yun_bridge.Handshake.{
  fault, Config, published, Manager, Clock, emit, with_link, set_fsm_state,
}

-- `SERIAL_HANDSHAKE_BACKOFF_BASE` and `SERIAL_HANDSHAKE_BACKOFF_MAX`, in milliseconds
abbrev pub backoff_base : ℕ
backoff_base = 1000

abbrev pub backoff_max : ℕ
backoff_max = 60000

-- `max(1, config.serial_handshake_fatal_failures)`
abbrev pub fatal_threshold : Config → ℕ
fatal_threshold cfg = max 1 cfg.serial_handshake_fatal_failures

-- `reason in _IMMEDIATE_FATAL_HANDSHAKE_REASONS`; no caller passes the other text of that set,
-- `sync_length_mismatch`
abbrev pub immediate : Reason → Bool
immediate sync_auth_mismatch = true
immediate _ = false

unfoldable pub should_mark_failure_fatal : Config → Reason → Link → Bool
should_mark_failure_fatal cfg reason l =
    immediate reason || leb (fatal_threshold cfg) l.handshake_failure_streak

-- The delay of `_maybe_schedule_handshake_backoff`, `none` where it schedules nothing.
unfoldable pub backoff_delay : Reason → ℕ → Option ℕ
backoff_delay reason failure_streak =
    let streak = max 1 failure_streak in
    let threshold = if immediate reason then 1 else 3 in
    if ltb streak threshold
    then none
    else some (min (backoff_base * 2 ^ (streak - threshold)) backoff_max)

unfoldable pub maybe_schedule_handshake_backoff : ℕ → Reason → Link → Link
maybe_schedule_handshake_backoff now reason l =
    elim (backoff_delay reason l.handshake_failure_streak) [
      | none ↦ l
      | some delay ↦ record l { handshake_backoff_until = now + delay }
    ]

unfoldable pub publish_handshake_event : Bool → Option Reason → Detail → Manager → Manager
publish_handshake_event success reason detail m =
    emit (published success reason detail m.fsm_state (build_handshake_snapshot m.link)) m

-- The counters of a failure, up to the test whether it is fatal.
unfoldable pub record_failure : Clock → Reason → Link → Link
record_failure clock reason l = mark_transport_connected (record l {
  handshake_failure_streak = l.handshake_failure_streak + 1;
  last_handshake_error = some reason;
  last_handshake_unix = clock.unix;
  handshake_last_duration = handshake_duration_since_start clock.monotonic l;
})

-- `detail or f"failure_streak_exceeded_{threshold}"`
abbrev or_streak : ℕ → Detail → Detail
or_streak threshold no_detail = failure_streak_exceeded threshold
or_streak threshold d = d

abbrev pub fatal_detail : Config → Reason → Detail → Detail
fatal_detail cfg reason detail =
    if immediate reason then detail else or_streak (fatal_threshold cfg) detail

unfoldable pub record_fatal : Config → Clock → Reason → Detail → Link → Link
record_fatal cfg clock reason detail l =
    if should_mark_failure_fatal cfg reason l
    then record l {
      handshake_fatal_count = l.handshake_fatal_count + 1;
      handshake_fatal_reason = some reason;
      handshake_fatal_detail = fatal_detail cfg reason detail;
      handshake_fatal_unix = clock.unix;
    }
    else l

unfoldable pub handle_handshake_failure : Config → Clock → Reason → Detail → Manager → Manager
unfolding record_failure record_fatal should_mark_failure_fatal maybe_schedule_handshake_backoff
    publish_handshake_event set_fsm_state mark_transport_connected
handle_handshake_failure cfg clock reason detail m =
    let m' = set_fsm_state fault m in
    let failed = record_failure clock reason m'.link in
    let counted = record_fatal cfg clock reason detail failed in
    let scheduled = maybe_schedule_handshake_backoff clock.monotonic reason counted in
    publish_handshake_event false (some reason)
      (if should_mark_failure_fatal cfg reason failed
        then fatal_detail cfg reason detail
        else detail)
      (with_link m' scheduled)
