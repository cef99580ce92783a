-- ===== src/Server/Negotiate/Tests.antt =====
-- A client that greets the server.
use remctl.Base.{◌≡◌, refl, true, false, some, [], ◌∷◌, codes, arith}
use remctl.Protocol.{token_ok}
use remctl.Channel.{Channel}
use remctl.Server.Session.{v2, blank, Client}
use remctl.Server.Commands.Argv.{xstrndup}
use remctl.Client.Session.{complete, continue_needed}
use remctl.Server.Negotiate.{
  Greeting, arrived, new_greeting, server_new_client, greeted_client, accepted_client, accept,
  accept_context, after_acceptance, send_acceptance, context_protocol, first_protocol, named_client,
}
use remctl.Server.Negotiate.Secured.{Secured, server_new_client-Secured}

abbrev quiet : Channel
quiet = record { sent = []; outcomes = []; incoming = [] }

abbrev greeting : Greeting
greeting = record {
  has_address = true;
  first = arrived 81;
  rounds =
      record {
        arrival = arrived 66;
        major = continue_needed;
        has_flags = false;
        send_tok = 1 ∷ [];
        send_status = token_ok;
      }
      ∷ record {
        arrival = arrived 66;
        major = complete;
        has_flags = true;
        send_tok = [];
        send_status = token_ok;
      }
      ∷ [];
  name = some (codes "user", false);
}

abbrev greeted : Client
greeted = record {
  protocol = 2;
  user = codes "user";
  anonymous = false;
  keepalive = false;
  fatal = false;
  channel = quiet;
  callbacks = v2;
  terminal = blank;
}

greets : server_new_client greeting quiet ≡ some greeted
unfolding server_new_client greeted_client accepted_client accept accept_context after_acceptance
    send_acceptance context_protocol first_protocol named_client xstrndup
greets = refl

server_new_client-Secured_example :
    (greeting.first ≡ arrived new_greeting) × Secured greeting.rounds × (greeted.callbacks ≡ v2)
server_new_client-Secured_example =
    server_new_client-Secured greeting quiet greeted greets (omega arith)
