-- ===== src/Client/V2/Messages.antt =====
-- Client-v2.c's messages on a session: quit, reading of tokens and of results, noop.
use remctl.Base.{
  ℕ, Bool, true, false, not, ◌||◌, Option, none, some, [], ◌∷◌, ◌==◌, if◌then◌else◌, Bytes,
}
use remctl.Protocol.Message
use remctl.Channel.{Received, token, failed}
use remctl.Client.V2.{Commandv, ready, not_sent, commandv}
use remctl.Client.V2
use remctl.Client.V2.Output.{Output, output, read_result}
use remctl.Client.Session.{
  Error, unexpected_token, malformed_token, bad_result, token_error, unexpected_protocol,
  unexpected_message, Slot, finished, holds, Remctl, set_error, with_channel, token_data_protocol,
  send_priv, recv_priv, close_if_lost,
}
use remctl.Client.Session
use remctl.Channel.{Channel}

-- What `internal_v2_commandv` leaves in the session.
unfoldable pub commandv_result : Commandv × Channel → Remctl → Bool × Remctl
commandv_result (ready, ch) r = (true, record (with_channel ch r) { is_ready = true })
commandv_result (V2.too_many_arguments, ch) r =
    (false, set_error Session.too_many_arguments (with_channel ch r))
commandv_result (V2.component_too_long, ch) r =
    (false, set_error Session.component_too_long (with_channel ch r))
commandv_result (V2.spent, ch) r = (false, set_error Session.spent (with_channel ch r))
commandv_result (not_sent status, ch) r =
    (false, set_error (token_error status) (with_channel ch r))

unfoldable pub internal_v2_quit : Remctl → Bool × Remctl
unfolding send_priv
internal_v2_quit r = send_priv (2 ∷ Message.quit ∷ []) r

unfoldable pub check_version : Bytes → Remctl → Option Bytes × Remctl
check_version (p0 ∷ p1 ∷ rest) r =
    if not (p0 == 2 || p0 == 3)
    then (none, set_error (unexpected_protocol p0) r)
    else (some (p0 ∷ p1 ∷ rest), r)
check_version short r = (none, set_error malformed_token r)

unfoldable pub check_token : Received → ℕ → Remctl → Option Bytes × Remctl
unfolding check_version close_if_lost
check_token (failed status) flags r =
    (none, close_if_lost status (set_error (token_error status) r))
check_token (token tok) flags r =
    if not (flags == token_data_protocol)
    then (none, set_error unexpected_token r)
    else check_version tok r

unfoldable pub internal_v2_read_token : Remctl → Option Bytes × Remctl
unfolding check_token recv_priv
internal_v2_read_token r =
    let (got, flags, r') = recv_priv token_data_protocol r in check_token got flags r'

-- More is to come only behind output.
unfoldable pub is_output : Output → Bool
is_output (output stream string) = true
is_output other = false

unfoldable pub keep_result : Option Output → Remctl → Option Slot × Remctl
unfolding is_output
keep_result none r = (none, set_error bad_result r)
keep_result (some result) r =
    (some (holds result), record r { output = some (holds result); is_ready = is_output result })

unfoldable pub analyze : Option Bytes × Remctl → Option Slot × Remctl
unfolding keep_result
analyze (none, r) = (none, r)
analyze (some tok, r) = keep_result (read_result tok) r

-- What a failed read leaves in `r->output` is wiped, unread, by the next call, and is left out.
unfoldable pub internal_v2_output : Remctl → Option Slot × Remctl
unfolding analyze
internal_v2_output r =
    let wiped = record r { output = some finished } in
    if not r.is_ready then (some finished, wiped) else analyze (internal_v2_read_token wiped)

unfoldable pub check_noop : Option Bytes × Remctl → Bool × Remctl
check_noop (some (p0 ∷ p1 ∷ rest), r) =
    if p1 == Message.noop then (true, r) else (false, set_error (unexpected_message p1) r)
check_noop (other, r) = (false, r)

unfoldable pub read_noop : Bool × Remctl → Bool × Remctl
unfolding check_noop
read_noop (false, r) = (false, r)
read_noop (true, r) = check_noop (internal_v2_read_token r)

unfoldable pub internal_noop : Remctl → Bool × Remctl
unfolding read_noop
internal_noop r = read_noop (send_priv (3 ∷ Message.noop ∷ []) r)
