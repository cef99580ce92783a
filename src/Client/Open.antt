-- ===== src/Client/Open.antt =====
-- Opening a connection (client/open.c): the network connection, and the establishment of the
-- GSS-API context.
pub mod Flags
use remctl.Base.{
  ℕ, ◌∷◌, ◌++◌, [], Bool, true, false, not, ◌&&◌, Option, none, some, List, length, ltb, ◌==◌,
  if◌then◌else◌, Bytes,
}
use remctl.Protocol.{TokenStatus, token_ok, fail_eof}
use remctl.Client.Session.{
  Error, unknown_host, cannot_connect, bad_name, bad_credentials, no_context, unacceptable_flags,
  token_error, Attempt, no_address, not_connected, connected, Major, complete, continue_needed,
  gss_error, Answer, answered, unanswered, Round, Handshake, Remctl, set_error, close_connection,
  socket_close,
}

unfoldable pub attempt_result : Attempt → Remctl → Option ℕ × Remctl
attempt_result no_address r = (none, set_error unknown_host r)
attempt_result not_connected r = (none, set_error cannot_connect r)
attempt_result (connected fd) r = (some fd, r)

-- Where the inputs have run out, no host has an address.
unfoldable pub next_attempt : List Attempt → Attempt × List Attempt
next_attempt [] = (no_address, [])
next_attempt (attempt ∷ rest) = (attempt, rest)

unfoldable pub internal_connect : Remctl → Option Bytes → ℕ → Option ℕ × Remctl
unfolding attempt_result next_attempt
internal_connect r host port =
    let (attempt, rest) = next_attempt r.world.attempts in
    attempt_result attempt
      (record r { world = record r.world { attempts = rest; tried = r.world.tried ++ port ∷ [] } })

-- How the loop ends: an error, or the context, with the flags of the last round.
pub data Established : Type 0 where
  failure : Error → Established
  context : Bool → Established

-- Once the server drops TOKEN_PROTOCOL, the protocol is version one.
unfoldable pub downgrade : ℕ → Bool → ℕ
downgrade protocol has_protocol = if ltb 1 protocol && not has_protocol then 1 else protocol

-- Whether a token has to be sent, and what the send comes to.
unfoldable pub send_round : Round → TokenStatus
send_round round = if ltb 0 (length round.send_tok) then round.send_status else token_ok

-- The rounds of the loop behind the send, with the protocol.
unfoldable pub after_send : (ℕ → Established × ℕ) → ℕ → Round → TokenStatus → Established × ℕ
unfolding downgrade
after_send next protocol round token_ok = elim round.major [
  | gss_error ↦ (failure no_context, protocol)
  | complete ↦ (context round.has_flags, protocol)
  | continue_needed ↦ elim round.answer [
    | unanswered status ↦ (failure (token_error status), protocol)
    | answered has_protocol ↦ next (downgrade protocol has_protocol)
  ]
]
after_send next protocol round status = (failure (token_error status), protocol)

-- The loop. Where the inputs have run out, gss_init_sec_context fails.
unfoldable pub establish : ℕ → List Round → Established × ℕ
unfolding after_send send_round
establish protocol [] = (failure no_context, protocol)
establish protocol (round ∷ rounds) =
    after_send (λ protocol'. establish protocol' rounds) protocol round (send_round round)

-- The label `fail`.
unfoldable pub open_failed : Error → Remctl → Bool × Remctl
unfolding socket_close
open_failed e r = (false, close_connection (set_error e r))

unfoldable pub check_flags : Established × ℕ → Remctl → Bool × Remctl
unfolding open_failed
check_flags (failure e, protocol) r = open_failed e (record r { protocol = protocol })
check_flags (context has_flags, protocol) r =
    if ltb 1 protocol && not has_flags
    then open_failed unacceptable_flags (record r { protocol = protocol })
    else (true, record r { protocol = protocol; is_ready = false })

unfoldable pub first_sent : List Round → TokenStatus → Remctl → Bool × Remctl
unfolding check_flags
first_sent rounds token_ok r = check_flags (establish r.protocol rounds) r
first_sent rounds status r = open_failed (token_error status) r

-- "Default to protocol version two", but one that is set is kept.
unfoldable pub default_protocol : ℕ → ℕ
default_protocol protocol = if protocol == 0 then 2 else protocol

unfoldable pub has_credentials : Option Bytes → Handshake → Bool
has_credentials none handshake = true
has_credentials (some ccache) handshake = handshake.credentials_set

unfoldable pub open_with : Handshake → Remctl → Bool × Remctl
unfolding first_sent default_protocol has_credentials
open_with handshake r =
    if not handshake.name_imported
    then open_failed bad_name r
    else if not (has_credentials r.ccache handshake)
    then open_failed bad_credentials r
    else first_sent handshake.rounds handshake.first_status
        (record r { protocol = default_protocol r.protocol })

-- Where the inputs have run out, the first token cannot be sent.
unfoldable pub next_handshake : List Handshake → Handshake × List Handshake
next_handshake [] = (
  record { name_imported = true; credentials_set = true; first_status = fail_eof; rounds = [] },
  [],
)
next_handshake (handshake ∷ rest) = (handshake, rest)

unfoldable pub internal_open : Remctl → Bool × Remctl
unfolding open_with next_handshake
internal_open r =
    let (handshake, rest) = next_handshake r.world.handshakes in
    open_with handshake (record r { world = record r.world { handshakes = rest } })
