-- ===== src/Server/Commands/Summary.antt =====
-- `server_send_summary` of server/commands.c.
use remctl.Base.{
  ℕ, Bool, true, false, Option, none, some, List, [], ◌∷◌, ◌++◌, same, ◌||◌, ◌==◌, if◌then◌else◌,
  Bytes, codes,
}
use remctl.Base.Int.{ℤ, pos, negsuc}
use remctl.Protocol.{unknown_command}
use remctl.Server.Rule.{Rule}
use remctl.Server.Session.{M, client, pure, ◌>>=◌}
use remctl.Server.Callbacks.{error, finish}
use remctl.Server.Commands.Argv.{program_name}
use remctl.Server.Commands.Process.{WaitStatus, exited, signaled, is_nonzero, Finished, Host}

-- The variables of the loop: `ok_any`, `status_all`, the status of the process structure, which
-- each round clears, and the output for protocol version one.
pub record Summary : Type 0 where
  pub ok_any : Bool
  pub status_all : WaitStatus
  pub last_status : WaitStatus
  pub output : Bytes

abbrev pub nothing_run : Summary
nothing_run = record { ok_any = false; status_all = exited 0; last_status = exited 0; output = [] }

unfoldable pub create_argv_summary : Rule → Bytes → List Bytes
unfolding program_name
create_argv_summary rule summary =
    program_name rule.program
    ∷ summary
    ∷ (if same rule.subcommand (codes "ALL") || same rule.subcommand (codes "EMPTY")
        then []
        else rule.subcommand ∷ [])

-- What a round adds for a process that ran.
unfoldable pub add_run : Summary → ℕ → Finished → Summary
unfolding is_nonzero
add_run s protocol run =
    if run.ok
    then record {
      ok_any = true;
      status_all = if is_nonzero run.status then run.status else s.status_all;
      last_status = run.status;
      output = if protocol == 1 then s.output ++ run.output else s.output;
    }
    else record s { ok_any = true; last_status = run.status }

-- "Sets the last process status to 0 if all succeeded, or the last failed exit status".
unfoldable pub summary_status : Summary → ℤ
summary_status s = elim s.status_all [
  | exited n ↦ elim s.last_status [ exited m ↦ pos m | signaled m ↦ pos 0 ]
  | signaled n ↦ negsuc 0
]

module _ (host : Host) where
  open host use {permit, process_run}

  unfoldable pub summarize_rule : Rule → Bytes → Summary → M Summary
  unfolding create_argv_summary add_run
  summarize_rule rule summary s = do
    run ← process_run (record {
      command = summary;
      argv = create_argv_summary rule summary;
      rule = rule;
      input = none;
    })
    c ← client
    pure (add_run s c.protocol run)

  -- One round of the loop.
  unfoldable pub summarize_summary : Rule → Summary → Option Bytes → M Summary
  unfolding summarize_rule
  summarize_summary rule s none = pure (record s { last_status = exited 0 })
  summarize_summary rule s (some summary) = summarize_rule rule summary s

  unfoldable pub summarize_permitted : Bool → Rule → Summary → M Summary
  unfolding summarize_summary
  summarize_permitted false rule s = pure (record s { last_status = exited 0 })
  summarize_permitted true rule s = summarize_summary rule s rule.summary

  unfoldable pub summarize : Rule → Summary → M Summary
  unfolding summarize_permitted
  summarize rule s = do permitted ← permit rule; summarize_permitted permitted rule s

  unfoldable pub summarize_all : List Rule → Summary → M Summary
  unfolding summarize
  summarize_all [] s = pure s
  summarize_all (rule ∷ rules) s = do s' ← summarize rule s; summarize_all rules s'

  unfoldable pub answer_summary : Summary → M Bool
  unfolding summary_status
  answer_summary s =
      if s.ok_any
      then finish s.output (summary_status s)
      else error unknown_command (codes "Unknown command")

  unfoldable pub send_summary : List Rule → M Bool
  unfolding summarize_all answer_summary
  send_summary rules = do s ← summarize_all rules nothing_run; answer_summary s
