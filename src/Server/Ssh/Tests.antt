-- ===== src/Server/Ssh/Tests.antt =====
-- Command lines of ssh.
use remctl.Base.{
  Bool, true, false, ◌++◌, ◌≡◌, refl, same, none, some, List, [], ◌∷◌, All, Bytes, codes, arith,
}
use remctl.Util.Vector.{vector_join}
use remctl.Server.Acl.Lines.{isspace, is_comment}
use remctl.Server.Acl.{regular}
use remctl.Server.Rule.{Rule, last}
use remctl.Server.Config.{is_option}
use remctl.Server.Config.Line.{new_rule}
use remctl.Server.Config.Load.{Files}
use remctl.Server.Config.Load.Printed.{IsPlainWord, IsRowOrEmpty, print, parse_rows}
use remctl.Server.Ssh.Shell.{Environment, exits, dies, command_not_set, overread, shell_main}
use remctl.Server.Ssh.Shell.Runs.{client_of}
use remctl.Base.Int.{pos}
use remctl.Protocol.{internal}
use remctl.Server.Session.{M, pure, done}
use remctl.Server.Commands.Granted.{IsGranted}
use remctl.Server.Commands.Nuls.{word_has_nul, arg_has_nul}
use remctl.Server.Commands.Argv.{xstrndup}
use remctl.Server.Commands.Match.{line_matches, find_config_line}
use remctl.Server.Commands.Process.{exited}
use remctl.Server.Process.{inout, err, readable, child_signal, Inputs}
use remctl.Server.Process.Delivered.{IsQuiet, pieces, has_output, reaped_status}
use remctl.Server.Process.Played.{later, all_events}
use remctl.Server.Process.Hosted.{host_of}
use remctl.Server.Ssh.Messages.{send_error}
use remctl.Server.Ssh.Output.{on_stream}
use remctl.Server.Ssh.Program.{client_struct, returns, shown, main, main-shown}
use remctl.Server.Ssh.{server_ssh_parse_command}
use remctl.Server.Ssh.Quoted.{quote_args}

abbrev test_environment : Environment
test_environment = record {
  remctl_user = some (codes "test@EXAMPLE.ORG");
  ssh_connection = some (codes "192.0.2.1 50000 192.0.2.2 22");
  ssh_original_command = some (quote_args (codes "a" ∷ codes "it's" ∷ []));
  hostname_of = λ address. none;
}

abbrev test_rows : List (List Bytes)
test_rows =
    (codes "a" ∷ codes "ALL" ∷ codes "/bin/run" ∷ codes "anyuser:auth" ∷ [])
    ∷ []
    ∷ (codes "b" ∷ codes "ALL" ∷ codes "/bin/b" ∷ codes "stdin=last" ∷ codes "acl" ∷ [])
    ∷ []

abbrev test_files : Files
test_files = record {
  content = λ name. some (print test_rows);
  stat = λ name. some regular;
  users = record { getpwuid = λ uid. none; getpwnam = λ name. none };
}

abbrev test_rules : List Rule
test_rules =
    record (new_rule (codes "conf") 1 (codes "a") (codes "ALL") (codes "/bin/run")) {
      acls = codes "anyuser:auth" ∷ [];
    }
    ∷ record (new_rule (codes "conf") 2 (codes "b") (codes "ALL") (codes "/bin/b")) {
      acls = codes "acl" ∷ [];
      stdin_arg = last;
    }
    ∷ []

test_rows-IsRow : All IsRowOrEmpty test_rows
unfolding isspace is_comment vector_join
test_rows-IsRow = ground arith

test_rows_rules : parse_rows test_files.users (codes "conf") 0 test_rows ≡ some test_rules
unfolding parse_rows is_option same remctl.Server.Config.Line.parse_rule
    remctl.Server.Config.Options.parse_conf_option
test_rows_rules = refl

fields_plain :
    All IsPlainWord (codes "192.0.2.1" ∷ codes "50000" ∷ codes "192.0.2.2" ∷ codes "22" ∷ [])
unfolding isspace
fields_plain = ground arith

-- Without a command; two words behind the options; and a connection that is empty.
test_shell :
    (shell_main
        (record test_environment { ssh_original_command = none })
        test_files
        1
        (codes "conf")
        []
        (codes "user" ∷ [])
      ≡ dies command_not_set)
    × (shell_main test_environment test_files 1 (codes "conf") [] (codes "a" ∷ codes "b" ∷ [])
        ≡ exits 1)
    × (shell_main
          (record test_environment { ssh_connection = some [] })
          test_files
          1
          (codes "conf")
          []
          (codes "user" ∷ [])
        ≡ overread)
unfolding shell_main same is_option print remctl.Server.Config.Options.parse_conf_option
test_shell = (refl, refl, refl)

-- A process that writes on both streams and exits.
abbrev test_inputs : Inputs
test_inputs = record {
  started = record { stdinout_pair = some 6; stderr_pair = some 7; fork = some 100 };
  events =
      readable inout (codes "one")
      ∷ readable err (codes "oops")
      ∷ child_signal (some (exited 3))
      ∷ [];
  rounds = (readable inout (codes "two") ∷ []) ∷ [] ∷ [];
  waited = λ status. status;
}

abbrev granted_rule : Rule
granted_rule = record (new_rule (codes "conf") 1 (codes "a") (codes "ALL") (codes "/bin/run")) {
  acls = codes "anyuser:auth" ∷ [];
}

abbrev permit_all : Rule → M Bool
permit_all rule = pure true

test_command-IsGranted :
    IsGranted
      (host_of permit_all (codes "sudo") (λ process. test_inputs))
      test_rules
      (codes "a")
      (codes "it's" ∷ [])
      granted_rule
      (client_struct [] (client_of test_environment (codes "192.0.2.1") (codes "test@EXAMPLE.ORG")))
unfolding word_has_nul arg_has_nul find_config_line line_matches xstrndup same
test_command-IsGranted = record { no_nul = refl; found = refl; clean = refl; permitted = refl }

events-IsQuiet : All IsQuiet test_inputs.events
unfolding IsQuiet
events-IsQuiet = omega arith

rounds-IsQuiet : All (λ events. All IsQuiet events) test_inputs.rounds
unfolding IsQuiet
rounds-IsQuiet = omega arith

exits_three : reaped_status (exited 0) (all_events test_inputs) ≡ exited 3
unfolding reaped_status later has_output
exits_three = refl

test_shown :
    (shown test_environment
      (codes "192.0.2.1")
      (codes "test@EXAMPLE.ORG")
      (pieces (all_events test_inputs))).terminal
    ≡ record { stdout = codes "onetwo"; stderr = codes "oops"; writes = [] }
unfolding pieces later has_output on_stream
test_shown = refl

main-shown_example :
    (main test_environment test_files 1
        (codes "conf")
        (host_of permit_all (codes "sudo") (λ process. test_inputs))
        []
        ((b'c', quote_args (codes "a" ∷ codes "it's" ∷ [])) ∷ [])
        []
      ≡ returns (
          done (pos 3) (
            shown test_environment
              (codes "192.0.2.1")
              (codes "test@EXAMPLE.ORG")
              (pieces (all_events test_inputs)))))
    × (main test_environment test_files 1
          (codes "conf")
          (host_of permit_all (codes "sudo") (λ process. test_inputs))
          []
          []
          (codes "test@EXAMPLE.ORG" ∷ [])
        ≡ returns (
            done (pos 3) (
              shown test_environment
                (codes "192.0.2.1")
                (codes "test@EXAMPLE.ORG")
                (pieces (all_events test_inputs)))))
main-shown_example =
    main-shown permit_all (codes "sudo") (λ process. test_inputs) test_rules (codes "a")
      (codes "it's" ∷ []) granted_rule 100 6 7 3 test_environment (codes "192.0.2.1")
      (codes "test@EXAMPLE.ORG") test_files 0 (codes "conf")
      (codes "50000" ∷ codes "192.0.2.2" ∷ codes "22" ∷ []) test_rows refl test_rows-IsRow
      test_rows_rules (unfold vector_join in refl) fields_plain refl refl test_command-IsGranted
      (record { has_stdinout = refl; has_stderr = refl; has_fork = refl }) events-IsQuiet
      rounds-IsQuiet exits_three

-- An error is written to standard error; a write that fails is fatal.
test_error :
    send_error internal (codes "no") (client_struct [] (client_of test_environment [] []))
    ≡ done true (record (client_struct [] (client_of test_environment [] [])) {
      terminal = record { stdout = []; stderr = codes "no" ++ 10 ∷ []; writes = [] };
    })
unfolding send_error remctl.Server.Session.◌>>=◌ remctl.Server.Ssh.Messages.write
test_error = refl

test_error_fails :
    send_error internal (codes "no") (client_struct (false ∷ []) (client_of test_environment [] []))
    ≡ done false (record (client_struct [] (client_of test_environment [] [])) { fatal = true })
unfolding send_error remctl.Server.Session.◌>>=◌ remctl.Server.Ssh.Messages.write
test_error_fails = refl

test_line :
    server_ssh_parse_command (codes " a  'b c'd \\e ")
    ≡ some (codes "a" ∷ codes "b cd" ∷ codes "e" ∷ [])
unfolding server_ssh_parse_command
test_line = refl

test_unterminated : server_ssh_parse_command (codes "a 'b") ≡ none
unfolding server_ssh_parse_command
test_unterminated = refl
