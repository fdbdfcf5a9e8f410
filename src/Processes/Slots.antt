-- ===== src/Processes/Slots.antt =====
-- The slots: every one is free or taken by a running process, with two exceptions.
use arduino_yun_bridge.Base.{
  ◌≢◌, Bool, ℕ, suc, ◌+◌, ◌%◌, ◌^◌, ◌≡◌, refl, true, none, some, List, [], ◌∷◌, arith, length,
}
use arduino_yun_bridge.Base.Ints.{pos}
use arduino_yun_bridge.Base.Assoc.{lookup, insert, nat_key}
use arduino_yun_bridge.Processes.{
  Process, Table, Spawn, started, os_error, unbalanced_quotes, run_process,
}

-- The slots in all.
abbrev pub slots : Table → ℕ
slots t = t.free + length t.running_processes

length-insert_new :
    (pid : ℕ) (p : Process) (m : List (ℕ × Process))
    → lookup pid m ≡ none
    → length (insert pid p m) ≡ length m + 1
unfolding lookup insert
length-insert_new pid p [] h = refl
length-insert_new pid p ((j, q) ∷ m) h =
    ground (arith, λ (e : lookup pid m ≡ none). length-insert_new pid p m e)

pub length-insert_old :
    (pid : ℕ) (p q : Process) (m : List (ℕ × Process))
    → lookup pid m ≡ some q
    → length (insert pid p m) ≡ length m
unfolding lookup insert
length-insert_old pid p q [] h = absurd (ground arith)
length-insert_old pid p q ((j, r) ∷ m) h =
    ground (arith, λ (e : lookup pid m ≡ some q). length-insert_old pid p q m e)

-- Starting a process, allowed or not, keeps the number of slots, whatever the operating system answers,
-- if the id that it gives is not taken modulo 2 ^ 16 and the command can be split.
pub run_keeps_slots :
    (allowed : Bool) (s : Spawn) (t : Table)
    → ((pid : ℕ) → s ≡ started pid → lookup (pid % 2 ^ 16) t.running_processes ≡ none)
    → s ≢ unbalanced_quotes
    → slots (run_process allowed s t).0 ≡ slots t
run_keeps_slots allowed (started pid) t free_id quotes =
    let more =
      length-insert_new (pid % 2 ^ 16) (record { exit_code = pos 0 }) t.running_processes
        (free_id pid refl) in
    unfold run_process in ground (arith, more)
run_keeps_slots allowed os_error t free_id quotes = unfold run_process in ground arith
run_keeps_slots allowed unbalanced_quotes t free_id quotes = absurd (quotes refl)

-- The command's quotes are unbalanced, or the id of the new process, modulo 2 ^ 16, is one of a process
-- that runs already.
pub data IsLossy (t : Table) : Spawn → Type 0 where
  quotes : IsLossy t unbalanced_quotes
  id_taken :
      (pid : ℕ) (p : Process)
      → lookup (pid % 2 ^ 16) t.running_processes ≡ some p
      → IsLossy t (started pid)

-- While a slot is free, starting an allowed command loses one slot of all, which is then neither free
-- nor taken, when the command's quotes are unbalanced, whatever runs, and when the id of the new process,
-- modulo 2 ^ 16, is one of a process that runs already.
pub run_loses_slot :
    (s : Spawn) (k : ℕ) (t : Table)
    → t.free ≡ suc k
    → IsLossy t s
    → slots (run_process true s t).0 + 1 ≡ slots t
run_loses_slot s k t free quotes = unfold run_process in ground arith
run_loses_slot s k t free (id_taken pid p taken) =
    let same =
      length-insert_old (pid % 2 ^ 16) (record { exit_code = pos 0 }) p t.running_processes taken in
    unfold run_process in ground (arith, same)
