-- ===== src/Client/Tests.antt =====
-- Small sessions, and the theorems on the client library at them.
use remctl.Base.{
  ◌≡◌, ◌*◌, suc, refl, true, false, Option, none, some, List, [], ◌∷◌, Bytes, codes, arith,
}
use remctl.Base.Int.{pos}
use remctl.Protocol.{token_ok}
use remctl.Protocol.Message
use remctl.Channel.{Received, token}
use remctl.Client.V2.Output.{output, status, read_result, read_status, signed}
use remctl.Client.Session.{
  World, Remctl, remctl_new, Attempt, connected, Round, Handshake, complete, continue_needed,
  answered, holds, finished, set_error, no_connection,
}
use remctl.Channel.{token_send_priv, transmit}
use remctl.Reply.V1.{FitsInt, answer_token, waiting, over, read_answer-token}
use remctl.Client.Session.{socket_close, send_priv, sent_or_error}
use remctl.Client.V2.Messages.{is_output, internal_v2_quit}
use remctl.Client.Api.{connect_old, prefer_error, reset_connection, quit_connection}
use remctl.Client.Open.{
  internal_open, next_handshake, open_with, first_sent, check_flags, establish, after_send,
  send_round, downgrade, default_protocol, has_credentials, internal_connect, next_attempt,
  attempt_result,
}
use remctl.Client.Open.Flags.{Negotiated, internal_open-Negotiated}
use remctl.Client.Simple.{Result, simple_remctl}
use remctl.Client.Simple.Ends.{simple_remctl_returns}
use remctl.Client.Simple.Collected.{reading, seen, remctl_output-read_result}
use remctl.Client.Api.{remctl_output, remctl_open, internal_reset, connect_ports}
use remctl.Client.Api.Calls.{after_calls, remctl_output-after_calls}
use remctl.Client.Api.Turns.{remctl_output-no_host, remctl_output_alternates}
use remctl.Client.Api.Stale.{remctl_open_stale}

-- Two rounds, in protocol version two throughout.
abbrev two_rounds : List Round
two_rounds =
    record {
      major = continue_needed;
      send_tok = 1 ∷ [];
      has_flags = false;
      send_status = token_ok;
      answer = answered true;
    }
    ∷ record {
      major = complete;
      send_tok = [];
      has_flags = true;
      send_status = token_ok;
      answer = answered true;
    }
    ∷ []

abbrev handshake : Handshake
handshake = record {
  name_imported = true;
  credentials_set = true;
  first_status = token_ok;
  rounds = two_rounds;
}

abbrev status_token : Bytes
status_token = 2 ∷ Message.status ∷ 7 ∷ []

abbrev world_of : List Attempt → List Received → World
world_of attempts incoming = record {
  attempts = attempts;
  tried = [];
  handshakes = handshake ∷ [];
  channel = record { sent = []; outcomes = []; incoming = incoming };
  flags = [];
  closed = [];
}

simple_remctl_returns_example :
    (result : Result) × (world : World) × (simple_remctl
        (world_of (connected 5 ∷ []) (token status_token ∷ []))
        (some (codes "host"))
        0
        none
        (codes "test" ∷ [])
      ≡ some (result, world))
simple_remctl_returns_example =
    simple_remctl_returns (world_of (connected 5 ∷ []) (token status_token ∷ []))
      (some (codes "host")) 0 none (codes "test" ∷ [])

abbrev session : Remctl
session = remctl_new (world_of [] [])

is_last : is_output (status (pos 7)) ≡ false
unfolding is_output
is_last = refl

reads_status : read_result status_token ≡ some (status (pos 7))
unfolding read_result read_status signed
reads_status = refl

remctl_output-after_calls_example :
    (remctl_output (after_calls 3 (seen session 5 (status (pos 7)) []))).0 ≡ some finished
remctl_output-after_calls_example =
    remctl_output-after_calls 3 (reading session 5 (token status_token ∷ []))
      (seen session 5 (status (pos 7)) []) 5 (status (pos 7)) refl refl is_last
      (remctl_output-read_result session 5 status_token [] reads_status)

-- A session of protocol version one, with a host or without, whose answer is one token.
abbrev old_session : Option Bytes → Remctl
old_session host = record session { host = host }

first_output :
    (host : Option Bytes)
    → remctl_output (waiting (old_session host) 5 (token (answer_token (codes "a") (pos 7)) ∷ []))
      ≡ (some (holds (output 1 (codes "a"))), over (old_session host) 5 [] (codes "a") (pos 7))
unfolding FitsInt
first_output host =
    read_answer-token (old_session host) 5 [] (codes "a") (pos 7) (omega arith) (omega arith)

remctl_output-no_host_example :
    remctl_output (over (old_session none) 5 [] (codes "a") (pos 7))
    ≡ (none, set_error no_connection (over (old_session none) 5 [] (codes "a") (pos 7)))
remctl_output-no_host_example =
    remctl_output-no_host
      (waiting (old_session none) 5 (token (answer_token (codes "a") (pos 7)) ∷ []))
      (over (old_session none) 5 [] (codes "a") (pos 7)) 1 (codes "a") refl refl (first_output none)

remctl_output_alternates_example :
    ((remctl_output
        (after_calls (2 * 2) (over (old_session (some (codes "host"))) 5 [] (codes "a") (pos 7)))).0
      ≡ some (
          holds
            (status (over (old_session (some (codes "host"))) 5 [] (codes "a") (pos 7)).status)))
    × ((remctl_output (
          after_calls
            (suc (2 * 2))
            (over (old_session (some (codes "host"))) 5 [] (codes "a") (pos 7)))).0
        ≡ some finished)
remctl_output_alternates_example =
    remctl_output_alternates 2
      (waiting (old_session (some (codes "host"))) 5
        (token (answer_token (codes "a") (pos 7)) ∷ []))
      (over (old_session (some (codes "host"))) 5 [] (codes "a") (pos 7)) (codes "host") 1
      (codes "a") refl refl (first_output (some (codes "host")))

-- An open session, and a network that makes no connection any more.
abbrev open_session : Remctl
open_session = record session { protocol = 2; fd = some 5 }

unconnected :
    (connect_ports
      (record (internal_reset open_session) {
        host = some (codes "host");
        port = 0;
        principal = none;
      })
      (some (codes "host"))
      0).0
    ≡ none
unfolding connect_ports connect_old internal_connect next_attempt attempt_result prefer_error
    internal_reset reset_connection quit_connection internal_v2_quit send_priv sent_or_error
    token_send_priv transmit socket_close
unconnected = refl

remctl_open_stale_example :
    (d : Remctl) × (remctl_open open_session (some (codes "host")) 0 none ≡ (false, d))
    × (d.fd ≡ some 5)
    × (d.world.closed ≡ 5 ∷ [])
remctl_open_stale_example =
    remctl_open_stale open_session (some (codes "host")) 0 none 5 refl unconnected

abbrev opened_session : Remctl
opened_session = record open_session { world = record open_session.world { handshakes = [] } }

opens : internal_open open_session ≡ (true, opened_session)
unfolding internal_open open_with first_sent check_flags establish after_send send_round downgrade
    next_handshake default_protocol has_credentials
opens = refl

internal_open-Negotiated_example :
    Negotiated (next_handshake open_session.world.handshakes).0.rounds
internal_open-Negotiated_example =
    internal_open-Negotiated open_session opened_session opens (omega arith)
