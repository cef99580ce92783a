-- ===== src/Server/Process/Tests.antt =====
-- Processes that cannot be started.
use remctl.Base.{◌≡◌, refl, true, false, ltb, none, some, [], ◌∷◌, if◌then◌else◌, codes}
use remctl.Protocol.{internal}
use remctl.Server.Session.{v2, blank, Client, done, send_token, ◌>>=◌}
use remctl.Server.Callbacks.{error}
use remctl.Base.{htonl}
use remctl.Protocol.{error_number}
use remctl.Channel.{token_send_priv}
use remctl.Server.V2.Messages
use remctl.Server.Process.{Inputs, Running, server_process_run}
use remctl.Server.Process.Failed.{start_fails, server_process_run_closes_zero}

abbrev test_client : Client
test_client = record {
  protocol = 2;
  user = codes "test@EXAMPLE.ORG";
  anonymous = false;
  keepalive = false;
  fatal = false;
  channel = record { sent = []; outcomes = []; incoming = [] };
  callbacks = v2;
  terminal = blank;
}

-- The third call of `start` fails.
abbrev no_fork_inputs : Inputs
no_fork_inputs = record {
  started = record { stdinout_pair = some 6; stderr_pair = some 7; fork = none };
  events = [];
  rounds = [];
  waited = λ status. status;
}

abbrev told_client : Client
told_client = record test_client {
  channel = record test_client.channel {
    sent = (2 ∷ 5 ∷ 0 ∷ 0 ∷ 0 ∷ 1 ∷ 0 ∷ 0 ∷ 0 ∷ 16 ∷ codes "Internal failure") ∷ [];
  };
}

fork_fails : start_fails 2 no_fork_inputs.started ≡ true
unfolding start_fails
fork_fails = refl

reports : error internal (codes "Internal failure") test_client ≡ done true told_client
unfolding error ◌>>=◌ Messages.send_error send_token token_send_priv htonl error_number
reports = refl

server_process_run_closes_zero_example :
    (p : Running) × (server_process_run no_fork_inputs test_client ≡ done (false, p) told_client)
    × (p.closed ≡ 0 ∷ (if ltb 1 2 then 0 ∷ [] else []))
server_process_run_closes_zero_example =
    server_process_run_closes_zero no_fork_inputs test_client told_client true fork_fails reports
