-- ===== src/Service/Shell.antt =====
-- The shell in mcubridge/mcubridge/services/runtime.py: `_handle_shell`. The parsers of the command (`none`
-- is one of the exceptions that are caught), `int` (`none` is a ValueError) and what the operating
-- system does are arguments.
use arduino_yun_bridge.Base.{
  ◌==◌, ℕ, Bool, true, ◌||◌, Option, none, some, List, [], ◌∷◌, ◌++◌, if◌then◌else◌, Bytes, Text,
  codes, text_eq,
}
use arduino_yun_bridge.Topics.{TopicRoute}
use arduino_yun_bridge.Processes.{
  Table, Spawn, Started, process_id, value_error, waits, run_process, Output, PollResponse,
  poll_process, Termination, kill_process,
}
use arduino_yun_bridge.Service.Pins.{Request}

-- What is published: the id of the new process (0 for none), or what a poll reads.
pub data ShellReport : Type 0 where
  run_async : ℕ → Request → ShellReport
  polled : ℕ → PollResponse → Request → ShellReport

pub record Shell : Type 0 where
  pub table : Table
  pub shell_reports : List ShellReport
  -- a run waits for a slot
  pub waiting : Bool
  pub raised : Bool

-- What the operating system does.
pub record System : Type 0 where
  pub spawn : Spawn
  pub stdout : Output
  pub stderr : Output
  pub finished : Bool
  pub termination : Termination

abbrev publish : ShellReport → Shell → Shell
publish r s = record s { shell_reports = s.shell_reports ++ (r ∷ []) }

abbrev started : Request → Table × Started → Shell → Shell
started request (t, process_id pid) s = publish (run_async pid request) (record s { table = t })
started request (t, value_error) s = publish (run_async 0 request) (record s { table = t })
started request (t, waits) s = record s { table = t; waiting = true }

-- The parsers: `pb.ProcessRunAsync.FromString(pl).command` and `pl.decode().strip()`; the command
-- policy; and `int(s)`.
pub record ShellParsers : Type 0 where
  pub command_of : Bytes → Option Text
  pub text_of : Bytes → Option Text
  pub allowed : Text → Bool
  pub parse_int : Text → Option ℕ

-- A request has no content type, so that its first byte decides.
abbrev command : ShellParsers → Bytes → Option Text
command ps [] = ps.text_of []
command ps (b ∷ bs) = if b == 10 then ps.command_of (b ∷ bs) else ps.text_of (b ∷ bs)

abbrev run_command : ShellParsers → System → Request → Option Text → Shell → Shell
run_command ps sys request none s = publish (run_async 0 request) s
run_command ps sys request (some cmd) s =
    started request (run_process (ps.allowed cmd) sys.spawn s.table) s

abbrev polled_table : ℕ → Request → Table × PollResponse → Shell → Shell
polled_table pid request (t, batch) s = publish (polled pid batch request) (record s { table = t })

abbrev on_process : System → Request → Text → Option ℕ → Shell → Shell
on_process sys request act none s = record s { raised = true }
on_process sys request act (some pid) s =
    if text_eq act (codes "poll")
    then polled_table pid request (poll_process pid sys.stdout sys.stderr sys.finished s.table) s
    else record s { table = kill_process sys.termination pid s.table }

unfoldable pub handle_shell : ShellParsers → System → TopicRoute → Request → Shell → Shell
unfolding run_process poll_process kill_process
handle_shell ps sys r request s = elim r.segments [
  | [] ↦ s
  | act ∷ segs ↦
      if text_eq act (codes "run_async")
      then run_command ps sys request (command ps request.payload) s
      else if text_eq act (codes "poll") || text_eq act (codes "kill")
      then elim segs [
        | [] ↦ s
        | pid ∷ more ↦ elim more [
          | [] ↦ on_process sys request act (ps.parse_int pid) s
          | extra ∷ rest ↦ s
        ]
      ]
      else s
]
