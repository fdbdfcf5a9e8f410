-- ===== src/State.antt =====
-- The rest of `RuntimeState` in mcubridge/mcubridge/state/context.py: the records of the supervisor, the
-- queues that `configure` makes, what external observations set, and the snapshots. Times are
-- milliseconds. The link's part is in Link.antt.
mod Supervision
mod Spools
mod Tests
use arduino_yun_bridge.Base.{
  false, length, is_empty, true, not, ◌&&◌, ◌++◌, starts_with, ◌||◌, ◌+◌, Bytes, codes, Bool,
  Option, List, Text, ℕ, if◌then◌else◌, none, some, [], ◌∷◌,
}
use arduino_yun_bridge.Base.Assoc.{lookup, insert, text_key}
use arduino_yun_bridge.Cloud.{Cloud}
use arduino_yun_bridge.Link.{
  Link, is_connected, is_synchronized, build_handshake_snapshot, Snapshot,
}
use arduino_yun_bridge.Storage.{Deque}

-- `pb.SupervisorSnapshot`
pub record Supervisor : Type 0 where
  pub restarts : ℕ
  pub last_failure_unix : ℕ
  pub last_exception : Text
  pub backoff : ℕ

abbrev pub new_supervisor : Supervisor
new_supervisor = record { restarts = 0; last_failure_unix = 0; last_exception = []; backoff = 0 }

-- An exception: its class and its text.
pub record Failure : Type 0 where
  pub class_name : Text
  pub message : Text

pub record State : Type 0 where
  pub supervisor_stats : List (Text × Supervisor)
  pub supervisor_failures : ℕ
  pub last_supervisor_error : Option Text

abbrev pub or_new : Option Supervisor → Supervisor
or_new none = new_supervisor
or_new (some stats) = stats

abbrev pub stats_of : Text → List (Text × Supervisor) → Supervisor
stats_of name stats = or_new (lookup name stats)

abbrev exception_text : Option Failure → Text
exception_text none = codes "unknown"
exception_text (some e) = e.class_name ++ (codes ": " ++ e.message)

abbrev error_text : Option Failure → Text
error_text none = codes "unknown"
error_text (some e) = e.message

unfoldable pub record_supervisor_failure : ℕ → Text → ℕ → Option Failure → State → State
record_supervisor_failure now name backoff exc s =
    let stats = stats_of name s.supervisor_stats in
    record s {
      supervisor_stats =
          insert name
            (record {
              restarts = stats.restarts + 1;
              last_failure_unix = now;
              last_exception = exception_text exc;
              backoff = backoff;
            })
            s.supervisor_stats;
      supervisor_failures = s.supervisor_failures + 1;
      last_supervisor_error = some (name ++ (codes ": " ++ error_text exc));
    }

abbrev pub rested : Option Supervisor → Text → List (Text × Supervisor) → List (Text × Supervisor)
rested none name stats = stats
rested (some one) name stats = insert name (record one { backoff = 0 }) stats

unfoldable pub mark_supervisor_healthy : Text → State → State
mark_supervisor_healthy name s = record s {
  supervisor_stats = rested (lookup name s.supervisor_stats) name s.supervisor_stats;
}

-- What `_create_spool` looks at.
pub record Storage : Type 0 where
  pub allow_non_tmp_paths : Bool
  pub file_system_root : Text
  pub mailbox_queue_limit : ℕ

-- A directory of its own below the root.
abbrev pub has_directory : Storage → Bool
has_directory cfg =
    (cfg.allow_non_tmp_paths || starts_with (codes "/tmp/") cfg.file_system_root)
    && not (is_empty cfg.file_system_root)

-- `_create_spool`: whether the directory can be made, and the rows that the file has from before.
unfoldable pub create_spool : Bool → List Bytes → Storage → Deque
create_spool made rows cfg =
    if has_directory cfg && made
    then record {
      in_file = true;
      rows = rows;
      count = length rows;
      maxlen = some cfg.mailbox_queue_limit;
    }
    else record { in_file = false; rows = []; count = 0; maxlen = some cfg.mailbox_queue_limit }

-- The datastore, in a file or missing.
unfoldable pub create_datastore :
    Bool → List (Text × Bytes) → Storage → Option (List (Text × Bytes))
create_datastore made entries cfg = if has_directory cfg && made then some entries else none

-- What an observation gives for a number: none is a ValueError or TypeError of `int` or `float`.
pub record HandshakeStats : Type 0 where
  pub attempts : Option ℕ
  pub successes : Option ℕ
  pub failure_streak : Option ℕ
  pub last_duration : Option ℕ
  pub last_unix : Option ℕ
  pub backoff_until : Option ℕ
  pub rate_limit_until : Option ℕ

-- One assignment, and those behind it, unless the value raises.
abbrev assign : Option ℕ → (ℕ → Link → Link) → (Link → Link) → Link → Link
assign none set rest l = l
assign (some n) set rest l = rest (set n l)

-- The fields that were set before an exception stay set.
unfoldable pub apply_handshake_stats : HandshakeStats → Link → Link
apply_handshake_stats o l =
    assign o.attempts (λ n l. record l { handshake_attempts = n })
      (λ l.
        assign o.successes (λ n l. record l { handshake_successes = n })
          (λ l.
            assign o.failure_streak (λ n l. record l { handshake_failure_streak = n })
              (λ l.
                assign o.last_duration (λ n l. record l { handshake_last_duration = n })
                  (λ l.
                    assign o.last_unix (λ n l. record l { last_handshake_unix = n })
                      (λ l.
                        assign o.backoff_until (λ n l. record l { handshake_backoff_until = n })
                          (λ l.
                            assign o.rate_limit_until (λ n l. record l { handshake_rate_until = n })
                              (λ l. l) l)
                          l)
                      l)
                  l)
              l)
          l)
      l
