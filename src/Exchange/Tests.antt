-- ===== src/Exchange/Tests.antt =====
-- An exchange at small inputs.
use remctl.Base.{
  List, Bytes, ◌≡◌, refl, true, false, some, none, Bool, [], ◌∷◌, All, codes, arith, same, htonl,
}
use remctl.Protocol.Wire.{payload, body}
use remctl.Server.Rule.{Rule, last}
use remctl.Server.Session.{v2, blank, Client, M, pure}
use remctl.Server.Commands.Nuls.{word_has_nul, arg_has_nul}
use remctl.Server.Commands.Argv.{xstrndup}
use remctl.Server.Commands.Match.{line_matches, find_config_line}
use remctl.Server.Commands.Process.{exited}
use remctl.Server.Process.{inout, err, readable, child_signal, Inputs, run_process}
use remctl.Base.Int.{ℤ}
use remctl.Channel.{token}
use remctl.Server.Acl.Tests as Checked
use remctl.Server.Commands.Dispatch.{run_command}
use remctl.Server.Process.Delivered.{IsQuiet, has_output, reaped_status}
use remctl.Server.Process.Played.{later, all_events}
use remctl.Server.V2.Collect.{resumed}
use remctl.Client.Session.{Remctl, remctl_new}
use remctl.Delivery.{IsAccepted}
use remctl.Server.Process.Hosted.{host_of}
use remctl.Server.Acl.{System}
use remctl.Server.Acl.Check.{acl_check_princ, server_config_acl_permit}
use remctl.Exchange.Denied.{checking_host, IsDenied, IsRefused, command-IsRefused}
use remctl.Server.Commands.Granted.{IsGranted}
use remctl.Exchange.{IsAnswered, command-IsAnswered}

abbrev test_client : Client
test_client = record {
  protocol = 2;
  user = codes "test@EXAMPLE.ORG";
  anonymous = false;
  keepalive = false;
  fatal = false;
  channel = record { sent = []; outcomes = []; incoming = [] };
  callbacks = v2;
  terminal = blank;
}

abbrev test_session : Remctl
test_session =
    record (remctl_new (record {
      attempts = [];
      tried = [];
      handshakes = [];
      channel = record { sent = []; outcomes = []; incoming = [] };
      flags = [];
      closed = [];
    })) { fd = some 5; protocol = 2 }

-- A process that writes on both streams and exits.
abbrev test_inputs : Inputs
test_inputs = record {
  started = record { stdinout_pair = some 6; stderr_pair = some 7; fork = some 100 };
  events =
      readable inout (codes "one")
      ∷ readable err (codes "oops")
      ∷ child_signal (some (exited 3))
      ∷ [];
  rounds = [] ∷ [];
  waited = λ status. status;
}

abbrev test_rule : Rule
test_rule = record {
  file = codes "conf";
  lineno = 1;
  command = codes "test";
  subcommand = codes "ALL";
  program = codes "/bin/run";
  logmask = [];
  stdin_arg = last;
  user = none;
  sudo_user = none;
  uid = 0;
  gid = 0;
  summary = none;
  help = none;
  acls = [];
}

abbrev permit_all : Rule → M Bool
permit_all rule = pure true

test_command-IsAccepted : IsAccepted (codes "test" ∷ codes "argument" ∷ [])
unfolding payload body htonl
test_command-IsAccepted = omega arith

test_command-IsGranted :
    IsGranted
      (host_of permit_all (codes "sudo") (λ process. test_inputs))
      (test_rule ∷ [])
      (codes "test")
      (codes "argument" ∷ [])
      test_rule
      (resumed test_client [])
unfolding word_has_nul arg_has_nul find_config_line line_matches xstrndup same
test_command-IsGranted = record { no_nul = refl; found = refl; clean = refl; permitted = refl }

events-IsQuiet : All IsQuiet test_inputs.events
unfolding IsQuiet
events-IsQuiet = omega arith

exits_three : reaped_status (exited 0) (all_events test_inputs) ≡ exited 3
unfolding reaped_status later has_output
exits_three = refl

command-IsAnswered_example :
    IsAnswered permit_all
      (codes "sudo")
      (λ process. test_inputs)
      (test_rule ∷ [])
      (codes "test")
      (codes "argument" ∷ [])
      test_rule
      3
      test_client
      test_session
      5
      []
      []
command-IsAnswered_example =
    command-IsAnswered permit_all (codes "sudo") (λ process. test_inputs) (test_rule ∷ [])
      (codes "test") (codes "argument" ∷ []) test_rule 100 6 7 3 test_client test_session 5 [] []
      test_command-IsAccepted test_command-IsGranted
      (record { has_stdinout = refl; has_stderr = refl; has_fork = refl }) events-IsQuiet (tt, tt)
      exits_three (omega arith) (omega arith) refl refl refl refl refl

-- No library that an ACL needs is there, and no file.
abbrev test_system : System
test_system = record {
  bufsiz = 8192;
  stat = λ name. none;
  lines = λ name. none;
  gput = none;
  localgroup = none;
  pcre = none;
  regex = none;
}

abbrev test_denying_rule : Rule
test_denying_rule = record test_rule {
  acls =
      codes "princ:other@EXAMPLE.ORG" ∷ codes "deny:test@EXAMPLE.ORG" ∷ codes "anyuser:auth" ∷ [];
}

test_command-IsDenied :
    IsDenied test_system 3
      (test_denying_rule ∷ [])
      (codes "test")
      (codes "argument" ∷ [])
      test_denying_rule
      (resumed test_client [])
unfolding word_has_nul arg_has_nul find_config_line line_matches xstrndup same
    server_config_acl_permit acl_check_princ
test_command-IsDenied = record { no_nul = refl; found = refl; clean = refl; denied = refl }

command-IsRefused_example :
    IsRefused
      (checking_host test_system 3
        (λ process. pure (record { ok = true; status = exited 0; output = [] }))
        (codes "sudo"))
      (test_denying_rule ∷ [])
      (codes "test")
      (codes "argument" ∷ [])
      test_client
      test_session
      5
      []
      []
command-IsRefused_example =
    command-IsRefused test_system 3
      (λ process. pure (record { ok = true; status = exited 0; output = [] })) (codes "sudo")
      (test_denying_rule ∷ []) (codes "test") (codes "argument" ∷ []) test_denying_rule test_client
      test_session 5 [] [] test_command-IsAccepted test_command-IsDenied refl refl refl refl refl

-- A client that sends a noop and a command.
abbrev busy_client : Client
busy_client = record test_client {
  channel = record test_client.channel {
    incoming =
        token (3 ∷ 7 ∷ [])
        ∷ token (2 ∷ 1 ∷ 1 ∷ 0 ∷ 0 ∷ 0 ∷ 0 ∷ 2 ∷ 0 ∷ 0 ∷ 0 ∷ 1 ∷ 97 ∷ 0 ∷ 0 ∷ 0 ∷ 1 ∷ 120 ∷ [])
        ∷ [];
  };
}

abbrev checked_command : List Bytes → M ℤ
checked_command =
    run_command
      (checking_host Checked.test_system 90 (run_process (λ process. test_inputs)) (codes "sudo"))
      (Checked.test_rule ∷ [])
