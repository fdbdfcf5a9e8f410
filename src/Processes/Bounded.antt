-- ===== src/Processes/Bounded.antt =====
-- No sequence of what happens to processes makes more slots than there were.
use arduino_yun_bridge.Base.{
  refl, true, false, ◌^◌, ◌%◌, ℕ, ◌+◌, ◌≤◌, ◌≡◌, Bool, none, some, List, [], ◌∷◌, arith, length,
}
use arduino_yun_bridge.Base.Ints.{ℤ, pos}
use arduino_yun_bridge.Base.Assoc.{lookup, insert, remove, nat_key}
use mathlib.Core.Option.{Option}
use arduino_yun_bridge.Processes.{
  release_found, set_found, Process, Table, Spawn, started, os_error, unbalanced_quotes,
  run_process, release, Output, finish_poll, Termination, finish_kill, store_if, Exit,
  monitor_process, set_exit_code, store_exit, Terminated, exit_code_is, process_lookup_error,
  terminate_process, exited, timed_out,
}
use arduino_yun_bridge.Processes.Slots.{slots, length-insert_old}

length-insert :
    (pid : ℕ) (p : Process) (m : List (ℕ × Process)) → length (insert pid p m) ≤ length m + 1
unfolding insert
length-insert pid p [] = omega arith
length-insert pid p ((j, q) ∷ m) = ground (arith, length-insert pid p m)

length-remove : (pid : ℕ) (m : List (ℕ × Process)) → length (remove pid m) ≤ length m
unfolding remove
length-remove pid [] = omega arith
length-remove pid ((j, q) ∷ m) = ground (arith, length-remove pid m)

length-remove_known :
    (pid : ℕ) (q : Process) (m : List (ℕ × Process))
    → lookup pid m ≡ some q
    → length (remove pid m) + 1 ≤ length m
unfolding lookup remove
length-remove_known pid q [] h = absurd (ground arith)
length-remove_known pid q ((j, r) ∷ m) h =
    ground
      (arith, length-remove pid m, λ (e : lookup pid m ≡ some q). length-remove_known pid q m e)

run_bounded : (allowed : Bool) (s : Spawn) (t : Table) → slots (run_process allowed s t).0 ≤ slots t
run_bounded allowed (started pid) t =
    let more = length-insert (pid % 2 ^ 16) (record { exit_code = pos 0 }) t.running_processes in
    unfold run_process in ground (arith, more)
run_bounded allowed os_error t = unfold run_process in ground arith
run_bounded allowed unbalanced_quotes t = unfold run_process in ground arith

release_bounded : (pid : ℕ) (t : Table) → slots (release pid t) ≤ slots t
unfolding release
release_bounded pid t = found (lookup pid t.running_processes) refl
  where
    found :
        (o : Option Process)
        → lookup pid t.running_processes ≡ o
        → slots (release_found pid o t) ≤ slots t
    found none e = omega arith
    found (some q) e =
        let less = length-remove_known pid q t.running_processes e in omega (arith, less)

exit_bounded : (pid : ℕ) (code : ℤ) (t : Table) → slots (set_exit_code pid code t) ≤ slots t
unfolding set_exit_code
exit_bounded pid code t = found (lookup pid t.running_processes) refl
  where
    found :
        (o : Option Process)
        → lookup pid t.running_processes ≡ o
        → slots (set_found pid code o t) ≤ slots t
    found none e = omega arith
    found (some q) e =
        let same = length-insert_old pid (record { exit_code = code }) q t.running_processes e in
        omega (arith, same)

store_exit_bounded : (pid : ℕ) (e : Terminated) (t : Table) → slots (store_exit pid e t) ≤ slots t
store_exit_bounded pid (exit_code_is code) t = exit_bounded pid code t
store_exit_bounded pid process_lookup_error t = omega arith

store_if_bounded :
    (still : Bool) (pid : ℕ) (e : Terminated) (t : Table) → slots (store_if still pid e t) ≤ slots t
store_if_bounded true pid e t = store_exit_bounded pid e t
store_if_bounded false pid e t = omega arith

kill_bounded :
    (w : Termination) (pid : ℕ) (still : Bool) (seen : Option Process) (t : Table)
    → slots (finish_kill w pid still seen t) ≤ slots t
unfolding finish_kill
kill_bounded w pid still none t = omega arith
kill_bounded w pid still (some p) t =
    let stored = store_if_bounded still pid (terminate_process w) t in
    let released = release_bounded pid (store_if still pid (terminate_process w) t) in
    omega (arith, stored, released)

monitor_bounded : (e : Exit) (pid : ℕ) (t : Table) → slots (monitor_process e pid t) ≤ slots t
unfolding monitor_process
monitor_bounded (exited code) pid t = exit_bounded pid code t
monitor_bounded (timed_out w) pid t = store_exit_bounded pid (terminate_process w) t

poll_bounded :
    (pid : ℕ) (seen : Option Process) (o e : Output) (fin : Bool) (t : Table)
    → slots (finish_poll pid seen o e fin t).0 ≤ slots t
unfolding finish_poll
poll_bounded pid none o e fin t = omega arith
poll_bounded pid (some p) o e fin t =
    let released = release_bounded pid t in ground (arith, released)

-- What happens to the processes, with what the operating system does. A poll and a kill only look a process
-- up before they wait; the step is what they do behind the wait, with any process that they may have seen,
-- so that other steps may come in between.
pub data ProcessEvent : Type 0 where
  run : Bool → Spawn → ProcessEvent
  poll : ℕ → Option Process → Output → Output → Bool → ProcessEvent
  kill : Termination → ℕ → Bool → Option Process → ProcessEvent
  -- the two halves of `_monitor_process`, before and after its sleep
  monitor : Exit → ℕ → ProcessEvent
  forget : ℕ → ProcessEvent

unfoldable pub on_process_event : ProcessEvent → Table → Table
on_process_event (run allowed s) t = (run_process allowed s t).0
on_process_event (poll pid seen o e fin) t = (finish_poll pid seen o e fin t).0
on_process_event (kill w pid still seen) t = finish_kill w pid still seen t
on_process_event (monitor e pid) t = monitor_process e pid t
on_process_event (forget pid) t = release pid t

abbrev pub run_table : List ProcessEvent → Table → Table
run_table [] t = t
run_table (e ∷ es) t = run_table es (on_process_event e t)

event_bounded : (e : ProcessEvent) (t : Table) → slots (on_process_event e t) ≤ slots t
unfolding on_process_event
event_bounded (run allowed s) t = run_bounded allowed s t
event_bounded (poll pid seen o e fin) t = poll_bounded pid seen o e fin t
event_bounded (kill w pid still seen) t = kill_bounded w pid still seen t
event_bounded (monitor e pid) t = monitor_bounded e pid t
event_bounded (forget pid) t = release_bounded pid t

-- Starts, ends of processes, and the ends of polls and kills, which may have looked a process up at any time
-- before, come in any order: the free slots and the processes of the table together are never more than at
-- the start.
pub run_table-bounded : (es : List ProcessEvent) (t : Table) → slots (run_table es t) ≤ slots t
run_table-bounded [] t = omega arith
run_table-bounded (e ∷ es) t =
    let first = event_bounded e t in
    let rest = run_table-bounded es (on_process_event e t) in omega (arith, first, rest)
