-- ===== src/Server/Commands/Tests.antt =====
-- A small configuration, and the theorems on commands at it.
use remctl.Base.{
  ◌≡◌, refl, Bool, true, false, none, some, [], ◌∷◌, Bytes, codes, ◌==◌, if◌then◌else◌,
}
use remctl.Base.Int.{pos}
use remctl.Protocol.{unknown_command, toomany_args}
use remctl.Server.Rule.{Rule, last}
use remctl.Server.Session.{v2, blank, M, Client, done, pure, ◌>>=◌, ◌>>◌}
use remctl.Server.Callbacks.{error, finish}
use remctl.Server.Commands.Argv.{create_argv_command, program_argv, stdin_index}
use remctl.Server.Commands.Match.{find_config_line}
use remctl.Server.Commands.Passed.{create_argv_command-without}
use remctl.Server.Commands.Nuls.{arg_has_nul, is_exempt, has_nul}
use remctl.Server.Commands.Process.{exited, is_nonzero, Process, Finished, Host}
use remctl.Server.Commands.Summary.{
  Summary, summarize, summarize_permitted, summarize_summary, summarize_rule, add_run, nothing_run,
  summarize_all, send_summary,
}
use remctl.Server.Commands.Dispatch.{not_run, run_command}
use remctl.Server.Commands.Access.{run_command-alike}
use remctl.Server.Commands.Answers.{run_command_answers_twice, send_summary_hides_failure}

abbrev test_rule : Bytes → Bytes → Rule
test_rule command subcommand = record {
  file = codes "conf";
  lineno = 1;
  command = command;
  subcommand = subcommand;
  program = codes "/bin/run";
  logmask = [];
  stdin_arg = last;
  user = none;
  sudo_user = none;
  uid = 0;
  gid = 0;
  summary = some (codes "sum");
  help = none;
  acls = codes "ANYUSER" ∷ [];
}

abbrev open_rule : Rule
open_rule = test_rule (codes "a") (codes "x")

abbrev closed_rule : Rule
closed_rule = test_rule (codes "b") (codes "ALL")

-- Only a rule for the subcommand x is permitted, and each process fails with the status 7.
unfoldable allowed : Rule → Bool
allowed rule = elim rule.subcommand [ [] ↦ false | b ∷ rest ↦ if b == 120 then true else false ]

abbrev seven : Finished
seven = record { ok = true; status = exited 7; output = codes "out" }

abbrev run_seven : Process → M Finished
run_seven p = pure seven

abbrev test_host : Host
test_host = record {
  permit = λ rule. pure (allowed rule);
  process_run = run_seven;
  path_sudo = codes "/usr/bin/sudo";
}

abbrev test_client : Client
test_client = record {
  protocol = 2;
  user = codes "test@EXAMPLE.ORG";
  anonymous = false;
  keepalive = false;
  fatal = false;
  channel = record { sent = []; outcomes = []; incoming = [] };
  callbacks = v2;
  terminal = blank;
}

clean_args :
    arg_has_nul (some open_rule) false 1 (codes "x" ∷ codes "y" ∷ (1 ∷ 0 ∷ []) ∷ []) ≡ false
unfolding arg_has_nul is_exempt has_nul
clean_args = refl

create_argv_command-without_example :
    create_argv_command
      (codes "/usr/bin/sudo")
      open_rule
      (codes "a" ∷ codes "x" ∷ codes "y" ∷ (1 ∷ 0 ∷ []) ∷ [])
    ≡ record { args = codes "run" ∷ codes "x" ∷ codes "y" ∷ []; input = some (1 ∷ 0 ∷ []) }
unfolding program_argv stdin_index
create_argv_command-without_example =
    create_argv_command-without (codes "/usr/bin/sudo") open_rule (codes "a")
      (codes "x" ∷ codes "y" ∷ (1 ∷ 0 ∷ []) ∷ []) clean_args

-- The processes of the rules that are not permitted would do something else.
unfoldable run_other : Process → M Finished
unfolding allowed
run_other p = if allowed p.rule then pure seven else pure (record seven { output = codes "other" })

alike_seven : (p : Process) → allowed p.rule ≡ true → run_seven p ≡ run_other p
unfolding run_other
alike_seven p ok = rw ok

run_command-alike_example :
    run_command test_host (closed_rule ∷ open_rule ∷ []) (codes "b" ∷ codes "x" ∷ [])
    ≡ run_command
        (record test_host { process_run = run_other })
        (closed_rule ∷ open_rule ∷ [])
        (codes "b" ∷ codes "x" ∷ [])
run_command-alike_example =
    run_command-alike allowed (codes "/usr/bin/sudo") run_seven run_other alike_seven
      (closed_rule ∷ open_rule ∷ []) (codes "b" ∷ codes "x" ∷ [])

clean_help : arg_has_nul none true 1 (codes "a" ∷ codes "b" ∷ codes "c" ∷ []) ≡ false
unfolding arg_has_nul has_nul
clean_help = refl

run_command_answers_twice_example :
    run_command test_host [] (codes "help" ∷ codes "a" ∷ codes "b" ∷ codes "c" ∷ []) ≡ (
      error toomany_args (codes "Too many arguments for help command")
      >> (error unknown_command (codes "Unknown command") >> pure not_run))
unfolding find_config_line
run_command_answers_twice_example =
    run_command_answers_twice test_host [] (codes "a") (codes "b") (codes "c") [] refl clean_help
      refl

abbrev failed_summary : Summary
failed_summary = record {
  ok_any = true;
  status_all = exited 7;
  last_status = exited 7;
  output = [];
}

failed_once :
    summarize_all test_host (open_rule ∷ []) nothing_run test_client
    ≡ done failed_summary test_client
unfolding summarize_all summarize summarize_permitted summarize_summary summarize_rule add_run
    is_nonzero allowed ◌>>=◌
failed_once = refl

closed : test_host.permit closed_rule test_client ≡ done false test_client
unfolding allowed
closed = refl

send_summary_hides_failure_example :
    send_summary test_host (open_rule ∷ closed_rule ∷ []) test_client
    ≡ finish [] (pos 0) test_client
send_summary_hides_failure_example =
    send_summary_hides_failure test_host (open_rule ∷ []) closed_rule test_client failed_summary
      test_client 7 failed_once closed refl refl
