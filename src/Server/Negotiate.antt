-- ===== src/Server/Negotiate.antt =====
-- `server_new_client` of server/generic.c: the set-up of the context and of the client, over what the
-- network and GSS-API answer.
pub mod Secured
mod Tests
use remctl.Base.{
  ℕ, ◌+◌, Bool, true, false, not, ◌&&◌, ltb, ◌==◌, Option, none, some, List, [], ◌∷◌, length,
  if◌then◌else◌, Bytes,
}
use remctl.Protocol.{TokenStatus, token_ok}
use remctl.Channel.{Channel}
use remctl.Server.Session.{Handlers, v1, v2, blank, Client}
use remctl.Server.Commands.Argv.{xstrndup}
use remctl.Client.Session.{Major, complete, continue_needed, gss_error}

-- What `token_recv` comes to, as far as its flags go.
pub data Arrival : Type 0 where
  arrived : ℕ → Arrival
  missing : TokenStatus → Arrival

-- One round of the loop: the token that comes, what gss_accept_sec_context returns (its result,
-- whether the flags of `req_gss_flags` are among those of the context, and its token), and what the
-- send of this token comes to.
pub record Acceptance : Type 0 where
  pub arrival : Arrival
  pub major : Major
  pub has_flags : Bool
  pub send_tok : Bytes
  pub send_status : TokenStatus

-- What the calls of one `server_new_client` come to: the address of the peer, the first token, the
-- rounds, and the name of the client, with whether it is that of an anonymous user.
pub record Greeting : Type 0 where
  pub has_address : Bool
  pub first : Arrival
  pub rounds : List Acceptance
  pub name : Option (Bytes × Bool)

-- TOKEN_NOOP | TOKEN_CONTEXT_NEXT, and TOKEN_PROTOCOL with it.
abbrev pub old_greeting : ℕ
old_greeting = 1 + 16

abbrev pub new_greeting : ℕ
new_greeting = 1 + 16 + 64

-- TOKEN_CONTEXT, and TOKEN_PROTOCOL with it.
abbrev pub old_context : ℕ
old_context = 2

abbrev pub new_context : ℕ
new_context = 2 + 64

-- The protocol that the first token asks for.
unfoldable pub first_protocol : Arrival → Option ℕ
first_protocol (missing status) = none
first_protocol (arrived flags) =
    if flags == new_greeting then some 2 else if flags == old_greeting then some 1 else none

-- The protocol behind a context token.
unfoldable pub context_protocol : ℕ → Arrival → Option ℕ
context_protocol protocol (missing status) = none
context_protocol protocol (arrived flags) =
    if flags == old_context then some 1 else if flags == new_context then some protocol else none

unfoldable pub send_acceptance : Acceptance → TokenStatus
send_acceptance round = if ltb 0 (length round.send_tok) then round.send_status else token_ok

-- A round, behind the send: the loop ends with the protocol and the flags of the context.
unfoldable pub after_acceptance :
    (ℕ → Option (ℕ × Bool)) → ℕ → Acceptance → TokenStatus → Option (ℕ × Bool)
after_acceptance next protocol round token_ok = elim round.major as (λ x. Option (ℕ × Bool)) [
  | gss_error ↦ none
  | complete ↦ some (protocol, round.has_flags)
  | continue_needed ↦ next protocol
]
after_acceptance next protocol round status = none

unfoldable pub accept_context : (ℕ → Option (ℕ × Bool)) → Option ℕ → Acceptance → Option (ℕ × Bool)
unfolding after_acceptance send_acceptance
accept_context next none round = none
accept_context next (some protocol) round =
    after_acceptance next protocol round (send_acceptance round)

-- The loop; where the inputs have run out, no token comes.
unfoldable pub accept : ℕ → List Acceptance → Option (ℕ × Bool)
unfolding accept_context context_protocol
accept protocol [] = none
accept protocol (round ∷ rounds) =
    accept_context (λ protocol'. accept protocol' rounds) (context_protocol protocol round.arrival)
      round

-- The callbacks that go by the protocol.
unfoldable pub callbacks_of : ℕ → Handlers
callbacks_of protocol = if protocol == 1 then v1 else v2

unfoldable pub named_client : ℕ → Channel → Option (Bytes × Bool) → Option Client
unfolding callbacks_of
named_client protocol ch none = none
named_client protocol ch (some (name, anonymous)) = some (record {
  protocol = protocol;
  user = xstrndup name;
  anonymous = anonymous;
  keepalive = false;
  fatal = false;
  channel = ch;
  callbacks = callbacks_of protocol;
  terminal = blank;
})

-- "Make sure that the appropriate context flags are set."
unfoldable pub accepted_client : Greeting → Channel → Option (ℕ × Bool) → Option Client
unfolding named_client
accepted_client greeting ch none = none
accepted_client greeting ch (some (protocol, has_flags)) =
    if ltb 1 protocol && not has_flags then none else named_client protocol ch greeting.name

unfoldable pub greeted_client : Greeting → Channel → Option ℕ → Option Client
unfolding accepted_client accept
greeted_client greeting ch none = none
greeted_client greeting ch (some protocol) =
    accepted_client greeting ch (accept protocol greeting.rounds)

unfoldable pub server_new_client : Greeting → Channel → Option Client
unfolding greeted_client first_protocol
server_new_client greeting ch =
    if not greeting.has_address
    then none
    else greeted_client greeting ch (first_protocol greeting.first)
