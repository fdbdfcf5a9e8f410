-- ===== src/Processes.antt =====
-- The processes that the MCU and the cloud start, in mcubridge/mcubridge/services/runtime.py: the slots,
-- the table of running processes, the poll. What the operating system does is an argument.
mod Slots
mod Bounded
mod Tests
use arduino_yun_bridge.Base.{
  ℕ, zero, suc, ◌+◌, ◌%◌, ◌^◌, Bool, true, false, ◌&&◌, Option, none, some, List, [], ◌∷◌,
  if◌then◌else◌, Bytes,
}
use arduino_yun_bridge.Base.Ints.{ℤ, pos, negsuc}
use arduino_yun_bridge.Base.Assoc.{lookup, insert, remove, nat_key}
use arduino_yun_bridge.Protocol.Status

-- `ProcessContext`, as far as it outlives a handler
pub record Process : Type 0 where
  pub exit_code : ℤ

pub record Table : Type 0 where
  -- the value of the semaphore `_process_slots`
  pub free : ℕ
  pub running_processes : List (ℕ × Process)

-- `create_subprocess_exec`, and `shlex.split` before it.
pub data Spawn : Type 0 where
  started : ℕ → Spawn
  os_error unbalanced_quotes : Spawn

-- The id (0 for a failure), an exception that leaves the function, or the wait for a slot.
pub data Started : Type 0 where
  process_id : ℕ → Started
  value_error waits : Started

abbrev spawn : Spawn → ℕ → Table → Table × Started
spawn (started pid) slots t =
    let key = pid % 2 ^ 16 in
    (
      record {
        free = slots;
        running_processes = insert key (record { exit_code = pos 0 }) t.running_processes;
      },
      process_id key,
    )
spawn os_error slots t = (record t { free = slots + 1 }, process_id 0)
spawn unbalanced_quotes slots t = (record t { free = slots }, value_error)

abbrev acquire : ℕ → Spawn → Table → Table × Started
acquire zero s t = (t, waits)
acquire (suc slots) s t = spawn s slots t

-- `allowed` is the answer of the command policy.
unfoldable pub run_process : Bool → Spawn → Table → Table × Started
run_process allowed s t = if allowed then acquire t.free s t else (t, process_id 0)

abbrev pub release_found : ℕ → Option Process → Table → Table
release_found pid none t = t
release_found pid (some p) t = record {
  free = t.free + 1;
  running_processes = remove pid t.running_processes;
}

-- `if self.state.running_processes.pop(pid, None): self._process_slots.release()`, the end of
-- `_monitor_process`
unfoldable pub release : ℕ → Table → Table
release pid t = release_found pid (lookup pid t.running_processes) t

-- What a poll reads: the bytes of a pipe, whether more may follow, and whether the pipe is at its end.
pub record Output : Type 0 where
  pub bytes : Bytes
  pub truncated : Bool
  pub at_eof : Bool

-- `pb.ProcessPollResponse`
pub record PollResponse : Type 0 where
  pub status : ℕ
  pub exit_code : ℤ
  pub stdout_data : Bytes
  pub stderr_data : Bytes
  pub finished : Bool
  pub stdout_truncated : Bool
  pub stderr_truncated : Bool

abbrev pub unknown_process : PollResponse
unknown_process = record {
  status = Status.value Status.error;
  exit_code = pos 1;
  stdout_data = [];
  stderr_data = [];
  finished = true;
  stdout_truncated = false;
  stderr_truncated = false;
}

abbrev response : Process → Output → Output → Bool → PollResponse
response p o e fin = record {
  status = Status.value Status.ok;
  exit_code = p.exit_code;
  stdout_data = o.bytes;
  stderr_data = e.bytes;
  finished = fin;
  stdout_truncated = o.truncated;
  stderr_truncated = e.truncated;
}

-- `_poll_process` behind its reads, with the process that it found before them; `fin`: the process has a
-- return code. While it reads, other tasks may change the table, whose lock guards no other `pop`.
unfoldable pub finish_poll :
    ℕ → Option Process → Output → Output → Bool → Table → Table × PollResponse
unfolding release
finish_poll pid none o e fin t = (t, unknown_process)
finish_poll pid (some p) o e fin t =
    (if fin && o.at_eof && e.at_eof then release pid t else t, response p o e fin)

-- `_poll_process`, when nothing else happens in between
unfoldable pub poll_process : ℕ → Output → Output → Bool → Table → Table × PollResponse
unfolding finish_poll
poll_process pid o e fin t = finish_poll pid (lookup pid t.running_processes) o e fin t

-- What `_terminate_process` meets: the return code at the start, whether SIGTERM finds the process,
-- the return code then, the end within the grace period, whether SIGKILL finds the process, and the end
-- after it.
pub record Termination : Type 0 where
  pub returncode : Option ℤ
  pub term_found : Bool
  pub late_returncode : Option ℤ
  pub graceful : Option ℤ
  pub kill_found : Bool
  pub killed : Option ℤ

pub data Terminated : Type 0 where
  exit_code_is : ℤ → Terminated
  process_lookup_error : Terminated

-- `code or -1`
abbrev or_minus_one : Option ℤ → ℤ
or_minus_one none = negsuc 0
or_minus_one (some (pos zero)) = negsuc 0
or_minus_one (some (pos (suc n))) = pos (suc n)
or_minus_one (some (negsuc n)) = negsuc n

abbrev or_unknown : Option ℤ → ℤ
or_unknown none = negsuc 0
or_unknown (some code) = code

abbrev after_grace : Termination → Option ℤ → Terminated
after_grace w (some code) = exit_code_is code
after_grace w none =
    if w.kill_found then exit_code_is (or_unknown w.killed) else process_lookup_error

unfoldable pub terminate_process : Termination → Terminated
terminate_process w = elim w.returncode [
  | some code ↦ exit_code_is code
  | none ↦
      if w.term_found
      then after_grace w w.graceful
      else exit_code_is (or_minus_one w.late_returncode)
]

abbrev pub set_found : ℕ → ℤ → Option Process → Table → Table
set_found pid code none t = t
set_found pid code (some p) t = record t {
  running_processes = insert pid (record { exit_code = code }) t.running_processes;
}

-- `ctx.exit_code = code`, of the process that the table has
unfoldable pub set_exit_code : ℕ → ℤ → Table → Table
set_exit_code pid code t = set_found pid code (lookup pid t.running_processes) t

abbrev store_exit : ℕ → Terminated → Table → Table
store_exit pid (exit_code_is code) t = set_exit_code pid code t
store_exit pid process_lookup_error t = t

-- The exit code is stored in the process that was found before; `still` tells that it is in the table.
abbrev store_if : Bool → ℕ → Terminated → Table → Table
store_if true pid e t = store_exit pid e t
store_if false pid e t = t

-- `_on_mcu_process_kill` and the KILL request of the cloud, behind the wait for the end of the process that
-- they found before it.
unfoldable pub finish_kill : Termination → ℕ → Bool → Option Process → Table → Table
unfolding set_exit_code release terminate_process
finish_kill w pid still none t = t
finish_kill w pid still (some p) t = release pid (store_if still pid (terminate_process w) t)

-- The same when nothing else happens in between.
unfoldable pub kill_process : Termination → ℕ → Table → Table
unfolding finish_kill
kill_process w pid t = finish_kill w pid true (lookup pid t.running_processes) t

-- How a process ends for `_monitor_process`: by itself, or by `_terminate_process` after the timeout.
pub data Exit : Type 0 where
  exited : ℤ → Exit
  timed_out : Termination → Exit

-- `_monitor_process` up to its sleep; `release` is what comes after it.
unfoldable pub monitor_process : Exit → ℕ → Table → Table
unfolding set_exit_code terminate_process
monitor_process (exited code) pid t = set_exit_code pid code t
monitor_process (timed_out w) pid t = store_exit pid (terminate_process w) t
