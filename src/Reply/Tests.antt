-- ===== src/Reply/Tests.antt =====
-- Replies at small inputs.
use remctl.Client.Program.{exit_status, Response, no_output, process_response}
use remctl.Client.Program.Printed.{shown}
use remctl.Reply.Program.{execute-process_response}
use remctl.Base.{◌≡◌, ◌↔◌, ◌<◌, refl, true, false, some, [], Bytes, codes, arith}
use remctl.Base.Int.{pos}
use remctl.Server.Session.{v2, blank, Client, done}
use remctl.Server.V2.Messages.{command_finish}
use remctl.Client.V2.Output.{output, status, read_result}
use remctl.Base.{All, Bool, none, List, ◌∷◌, ◌++◌, map}
use remctl.Base.Int.{negsuc}
use remctl.Channel.{token}
use remctl.Server.Rule.{Rule, last}
use remctl.Server.Session.{M, pure}
use remctl.Server.V1
use remctl.Server.Commands.Process.{exited, Process}
use remctl.Server.Commands.Dispatch.{execute}
use remctl.Server.Process.{inout, err, readable, child_signal, Inputs}
use remctl.Server.Process.Delivered.{IsQuiet, pieces, has_output, reaped_status}
use remctl.Server.Process.Tokens.{told_all}
use remctl.Server.Process.Played.{later, all_events}
use remctl.Client.Session.{World, Remctl, remctl_new, holds}
use remctl.Client.Simple.{empty_result, collect_sent}
use remctl.Client.Simple.Collected.{added, reading}
use remctl.Client.Api.{remctl_output}
use remctl.Reply.V1.{FitsInt, waiting, over, v1_output_delivered}
use remctl.Server.Process.Hosted.{host_of}
use remctl.Reply.Run.{execute-collect_sent}
use remctl.Reply.{told, command_finish-read_result}

abbrev test_client : Client
test_client = record {
  protocol = 2;
  user = codes "test@EXAMPLE.ORG";
  anonymous = false;
  keepalive = false;
  fatal = false;
  channel = record { sent = []; outcomes = []; incoming = [] };
  callbacks = v2;
  terminal = blank;
}

command_finish-read_result_example :
    (tok : Bytes) × (command_finish (pos 200) test_client ≡ done true (told test_client tok))
    × ((read_result tok ≡ some (status (pos 200))) ↔ (200 < 128))
command_finish-read_result_example = command_finish-read_result 200 test_client (omega arith) refl

abbrev quiet_session : Remctl
quiet_session = remctl_new (record {
  attempts = [];
  tried = [];
  handshakes = [];
  channel = record { sent = []; outcomes = []; incoming = [] };
  flags = [];
  closed = [];
})

small_code : FitsInt (negsuc 0)
unfolding FitsInt
small_code = omega arith

v1_output_delivered_example :
    (tok : Bytes) × (V1.send_output (codes "no") (negsuc 0) test_client
      ≡ done true (told test_client tok))
    × (remctl_output (waiting quiet_session 5 (token tok ∷ []))
        ≡ (some (holds (output 1 (codes "no"))), over quiet_session 5 [] (codes "no") (negsuc 0)))
v1_output_delivered_example =
    v1_output_delivered (codes "no") (negsuc 0) test_client quiet_session 5 [] small_code
      (omega arith) refl

-- A process that writes on both streams, and once more behind its exit.
abbrev busy_inputs : Inputs
busy_inputs = record {
  started = record { stdinout_pair = some 6; stderr_pair = some 7; fork = some 100 };
  events =
      readable inout (codes "one")
      ∷ readable err (codes "oops")
      ∷ child_signal (some (exited 3))
      ∷ [];
  rounds = (readable inout (codes "two") ∷ []) ∷ [] ∷ [];
  waited = λ status. status;
}

abbrev test_process : Process
test_process = record {
  command = codes "a";
  argv = codes "a" ∷ [];
  rule = record {
    file = codes "conf";
    lineno = 1;
    command = codes "a";
    subcommand = codes "x";
    program = codes "/bin/run";
    logmask = [];
    stdin_arg = last;
    user = none;
    sudo_user = none;
    uid = 0;
    gid = 0;
    summary = none;
    help = none;
    acls = [];
  };
  input = none;
}

abbrev permit_all : Rule → M Bool
permit_all rule = pure true

events-IsQuiet : All IsQuiet busy_inputs.events
unfolding IsQuiet
events-IsQuiet = omega arith

rounds-IsQuiet : All (λ events. All IsQuiet events) busy_inputs.rounds
unfolding IsQuiet
rounds-IsQuiet = ((omega arith, tt), (tt, tt))

exits_three : reaped_status (exited 0) (all_events busy_inputs) ≡ exited 3
unfolding reaped_status later has_output
exits_three = refl

execute-collect_sent_example :
    (tokens : List Bytes) × (final : Bytes) × (execute
        (host_of permit_all (codes "sudo") (λ process. busy_inputs))
        []
        test_process
        test_client
      ≡ done (pos 3) (told_all test_client (tokens ++ final ∷ [])))
    × (world : World) × (collect_sent
          (true, reading quiet_session 5 (map token tokens ++ token final ∷ []))
        ≡ some (
          record (added (pieces (all_events busy_inputs)) empty_result) { status = pos 3 },
          world,
        ))
execute-collect_sent_example =
    execute-collect_sent permit_all (codes "sudo") (λ process. busy_inputs) [] test_process 100 6 7
      3 test_client quiet_session 5 []
      (record { has_stdinout = refl; has_stderr = refl; has_fork = refl }) events-IsQuiet
      rounds-IsQuiet exits_three (omega arith) (omega arith) refl refl

execute-process_response_example :
    (tokens : List Bytes) × (final : Bytes) × (execute
        (host_of permit_all (codes "sudo") (λ process. busy_inputs))
        []
        test_process
        test_client
      ≡ done (pos 3) (told_all test_client (tokens ++ final ∷ [])))
    × (response : Response) × (process_response
          (reading quiet_session 5 (map token tokens ++ token final ∷ []))
        ≡ some response)
    × (response.console ≡ shown (pieces (all_events busy_inputs)) no_output)
    × (exit_status response.ending ≡ 3)
execute-process_response_example =
    execute-process_response permit_all (codes "sudo") (λ process. busy_inputs) [] test_process 100
      6 7 3 test_client quiet_session 5 []
      (record { has_stdinout = refl; has_stderr = refl; has_fork = refl }) events-IsQuiet
      rounds-IsQuiet exits_three (omega arith) (omega arith) refl refl
