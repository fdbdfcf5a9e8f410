-- ===== src/Processes/Tests.antt =====
-- One process runs under the id 7, and one slot is free.
use arduino_yun_bridge.Base.{List, some, none, false, ◌≤◌, ◌+◌, ◌≡◌, refl, true, [], ◌∷◌}
use arduino_yun_bridge.Base.Ints.{pos}
use arduino_yun_bridge.Base.Assoc.{lookup, nat_key}
use arduino_yun_bridge.Processes.Bounded.{
  ProcessEvent, run, monitor, poll, kill, forget, run_table, run_table-bounded,
}
use arduino_yun_bridge.Processes.{Output, Termination, exited, Process, Table, started, run_process}
use arduino_yun_bridge.Processes.Slots.{slots, id_taken, run_loses_slot}

abbrev idle : Process
idle = record { exit_code = pos 0 }

abbrev one_running : Table
one_running = record { free = 1; running_processes = (7, idle) ∷ [] }

run_loses_slot_example : slots (run_process true (started 65543) one_running).0 + 1 ≡ 2
unfolding lookup
run_loses_slot_example =
    run_loses_slot (started 65543) 0 one_running refl (id_taken 65543 idle refl)

abbrev nothing_read : Output
nothing_read = record { bytes = []; truncated = false; at_eof = true }

abbrev gone : Termination
gone = record {
  returncode = none;
  term_found = false;
  late_returncode = none;
  graceful = none;
  kill_found = false;
  killed = none;
}

-- A process starts under the id of the one that runs, ends, and is read to its end, while a kill that saw it
-- before still waits; the first one's monitor releases the id once more.
abbrev events : List ProcessEvent
events =
    run true (started 65543)
    ∷ monitor (exited (pos 0)) 7
    ∷ poll 7 (some idle) nothing_read nothing_read true
    ∷ kill gone 7 false (some idle)
    ∷ forget 7
    ∷ []

run_table-bounded_example : slots (run_table events one_running) ≤ 2
run_table-bounded_example = run_table-bounded events one_running
