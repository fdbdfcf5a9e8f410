-- ===== src/State/Supervision.antt =====
-- The counts of the supervisor.
use mathlib.Core.Logic.{◌⊎◌}
use arduino_yun_bridge.Base.{
  sym, false, true, arith, text_eq→eq, Bool-cases, ◌+◌, ◌≡◌, text_eq, Option, List, Text, ℕ,
  if◌then◌else◌, none, some, [], ◌∷◌, refl, inl, inr, ap, ◌∙◌,
}
use arduino_yun_bridge.Base.Assoc.{lookup, insert, lookup-insert, text_key}
use arduino_yun_bridge.State.{
  rested, Supervisor, State, Failure, stats_of, record_supervisor_failure, mark_supervisor_healthy,
}

-- What the tasks report.
pub data Event : Type 0 where
  failed : ℕ → Text → ℕ → Option Failure → Event
  healthy : Text → Event

unfoldable pub run : List Event → State → State
unfolding record_supervisor_failure mark_supervisor_healthy
run [] s = s
run (failed now name backoff exc ∷ events) s =
    run events (record_supervisor_failure now name backoff exc s)
run (healthy name ∷ events) s = run events (mark_supervisor_healthy name s)

-- How often a task failed, and how often any did.
abbrev pub failures_of : Text → List Event → ℕ
failures_of name [] = 0
failures_of name (failed now other backoff exc ∷ events) =
    let rest = failures_of name events in if text_eq other name then rest + 1 else rest
failures_of name (healthy other ∷ events) = failures_of name events

abbrev pub failures : List Event → ℕ
failures [] = 0
failures (failed now name backoff exc ∷ events) = failures events + 1
failures (healthy name ∷ events) = failures events

abbrev pub restarts : Text → State → ℕ
restarts name s = (stats_of name s.supervisor_stats).restarts

inserted :
    (other name : Text) (one : Supervisor) (stats : List (Text × Supervisor))
    → (stats_of name (insert other one stats)).restarts
      ≡ (if text_eq other name then one.restarts else (stats_of name stats).restarts)
inserted other name one stats = elim (Bool-cases (text_eq other name)) [
  | inl here ↦ rw (lookup-insert other name one stats, here) refl
  | inr there ↦ rw (lookup-insert other name one stats, there) refl
]

failed_step :
    (now : ℕ) (other : Text) (backoff : ℕ) (exc : Option Failure) (name : Text) (s : State)
    → restarts name (record_supervisor_failure now other backoff exc s)
      ≡ (if text_eq other name then restarts name s + 1 else restarts name s)
unfolding record_supervisor_failure
failed_step now other backoff exc name s =
    inserted other name _ s.supervisor_stats ∙ moved (Bool-cases (text_eq other name))
  where
    moved :
        (text_eq other name ≡ true) ⊎ (text_eq other name ≡ false)
        → (if text_eq other name then restarts other s + 1 else restarts name s)
          ≡ (if text_eq other name then restarts name s + 1 else restarts name s)
    moved (inl here) = rw here (ap (λ k. restarts k s + 1) (text_eq→eq other name here))
    moved (inr there) = rw there refl

rested_same :
    (other name : Text) (o : Option Supervisor) (stats : List (Text × Supervisor))
    → lookup other stats ≡ o
    → (stats_of name (rested o other stats)).restarts ≡ (stats_of name stats).restarts
rested_same other name none stats e = refl
rested_same other name (some one) stats e =
    inserted other name (record one { backoff = 0 }) stats ∙ kept (Bool-cases (text_eq other name))
  where
    kept :
        (text_eq other name ≡ true) ⊎ (text_eq other name ≡ false)
        → (if text_eq other name then one.restarts else (stats_of name stats).restarts)
          ≡ (stats_of name stats).restarts
    kept (inl here) =
        let found = ap (λ k. lookup k stats) (sym (text_eq→eq other name here)) ∙ e in
        rw (here, found) refl
    kept (inr there) = rw there refl

-- Whatever the tasks report, in whatever order, the count of restarts of a task grows by its failures, and
-- the count of all failures by theirs; that a task is healthy again changes neither.
pub run_counts :
    (events : List Event) (name : Text) (s : State)
    → (restarts name (run events s) ≡ restarts name s + failures_of name events)
      × ((run events s).supervisor_failures ≡ s.supervisor_failures + failures events)
unfolding run
run_counts [] name s = (omega arith, omega arith)
run_counts (failed now other backoff exc ∷ events) name s =
    let next = record_supervisor_failure now other backoff exc s in
    let (mine, all) = run_counts events name next in
    (
      ground (arith, mine, failed_step now other backoff exc name s),
      unfold record_supervisor_failure in ground (arith, all),
    )
run_counts (healthy other ∷ events) name s =
    let (mine, all) = run_counts events name (mark_supervisor_healthy other s) in
    let same = rested_same other name (lookup other s.supervisor_stats) s.supervisor_stats refl in
    unfold mark_supervisor_healthy in (ground (arith, mine, same), ground (arith, all))
