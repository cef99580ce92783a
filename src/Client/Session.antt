-- ===== src/Client/Session.antt =====
-- `struct remctl` of client/internal.h, and what lies behind it: the network and GSS-API. What they
-- answer are inputs. Memory allocation succeeds.
use remctl.Base.{ℕ, ◌+◌, Bool, true, false, Option, none, some, List, [], ◌∷◌, ◌++◌, Bytes}
use remctl.Base.Int.{ℤ, pos}
use remctl.Protocol.{TokenStatus, token_ok, fail_eof, fail_timeout}
use remctl.Channel.{Channel, Received, token_send_priv, token_recv_priv}
use remctl.Client.V2.Output.{Output}

-- The error messages that the library writes, by their kinds. `bad_result` is every message on a
-- token whose type, length or stream does not fit (Client/V2/Output.antt).
pub data Error : Type 0 where
  no_connection unknown_host cannot_connect bad_name bad_credentials no_context : Error
  unacceptable_flags empty_command too_many_arguments component_too_long too_large
        noop_unsupported :
      Error
  unexpected_token malformed_token bad_result spent : Error
  token_error : TokenStatus → Error
  unexpected_protocol unexpected_message : ℕ → Error
  invalid_timeout : ℤ → Error

-- What a connection to a host and port comes to: getaddrinfo fails, network_connect fails, or there
-- is a descriptor.
pub data Attempt : Type 0 where
  no_address not_connected : Attempt
  connected : ℕ → Attempt

-- GSS_S_COMPLETE, GSS_S_CONTINUE_NEEDED, or an error.
pub data Major : Type 0 where
  complete continue_needed gss_error : Major

-- What token_recv comes to: a failure, or a token, and whether its flags have TOKEN_PROTOCOL.
pub data Answer : Type 0 where
  answered : Bool → Answer
  unanswered : TokenStatus → Answer

-- One round of the context-establishment loop: what gss_init_sec_context returns (its result, its
-- token, and whether the flags of `req_gss_flags` are among those of the context), what the send of
-- the token comes to, and what the receive comes to.
pub record Round : Type 0 where
  pub major : Major
  pub send_tok : Bytes
  pub has_flags : Bool
  pub send_status : TokenStatus
  pub answer : Answer

-- What the calls of one `internal_open` come to.
pub record Handshake : Type 0 where
  pub name_imported : Bool
  pub credentials_set : Bool
  pub first_status : TokenStatus
  pub rounds : List Round

-- The inputs in the order in which they are asked for, and a record of the ports that were tried,
-- of the descriptors that were closed, and, in the channel, of the tokens that were sent. `flags`
-- are those of the tokens that come in; where the list has run out, they are those expected.
pub record World : Type 0 where
  pub attempts : List Attempt
  pub tried : List ℕ
  pub handshakes : List Handshake
  pub channel : Channel
  pub flags : List ℕ
  pub closed : List ℕ

-- `struct remctl_output` by its type; `finished` is REMCTL_OUT_DONE.
pub data Slot : Type 0 where
  finished : Slot
  holds : Output → Slot

-- `none` is INVALID_SOCKET in `fd`, and the null pointer in the others.
pub record Remctl : Type 0 where
  pub host : Option Bytes
  pub port : ℕ
  pub principal : Option Bytes
  pub protocol : ℕ
  pub source : Option Bytes
  pub timeout : ℤ
  pub ccache : Option Bytes
  pub fd : Option ℕ
  pub error : Option Error
  pub output : Option Slot
  pub status : ℤ
  pub is_ready : Bool
  pub world : World

-- `remctl_new`.
abbrev pub remctl_new : World → Remctl
remctl_new world = record {
  host = none;
  port = 0;
  principal = none;
  protocol = 0;
  source = none;
  timeout = pos 0;
  ccache = none;
  fd = none;
  error = none;
  output = none;
  status = pos 0;
  is_ready = false;
  world = world;
}

-- `internal_set_error` and what follows it, of kind `e`.
abbrev pub set_error : Error → Remctl → Remctl
set_error e r = record r { error = some e }

abbrev pub with_channel : Channel → Remctl → Remctl
with_channel ch r = record r { world = record r.world { channel = ch } }

-- `socket_close (r->fd)`.
unfoldable pub socket_close : Remctl → Remctl
socket_close r = elim r.fd [
  | none ↦ r
  | some fd ↦ record r { world = record r.world { closed = r.world.closed ++ fd ∷ [] } }
]

-- The connection is closed, and the descriptor is forgotten.
abbrev pub close_connection : Remctl → Remctl
close_connection r = record (socket_close r) { fd = none }

-- TOKEN_DATA and TOKEN_DATA | TOKEN_PROTOCOL.
abbrev pub token_data : ℕ
token_data = 4

abbrev pub token_data_protocol : ℕ
token_data_protocol = 4 + 64

-- What a send comes to: a failure is an error.
unfoldable pub sent_or_error : TokenStatus × Channel → Remctl → Bool × Remctl
sent_or_error (token_ok, ch) r = (true, with_channel ch r)
sent_or_error (status, ch) r = (false, set_error (token_error status) (with_channel ch r))

unfoldable pub send_priv : Bytes → Remctl → Bool × Remctl
unfolding sent_or_error
send_priv tok r = sent_or_error (token_send_priv tok r.world.channel) r

unfoldable pub next_flags : ℕ → List ℕ → ℕ × List ℕ
next_flags expected [] = (expected, [])
next_flags expected (flags ∷ rest) = (flags, rest)

-- What `token_recv_priv` gives where the flags `expected` are expected, and the flags.
unfoldable pub recv_priv : ℕ → Remctl → Received × ℕ × Remctl
unfolding next_flags
recv_priv expected r =
    let (got, ch) = token_recv_priv r.world.channel in
    let (flags, rest) = next_flags expected r.world.flags in
    (got, flags, record r { world = record r.world { channel = ch; flags = rest } })

-- After end of file and a timeout the connection is closed.
unfoldable pub close_if_lost : TokenStatus → Remctl → Remctl
unfolding socket_close
close_if_lost fail_eof r = close_connection r
close_if_lost fail_timeout r = close_connection r
close_if_lost status r = r
