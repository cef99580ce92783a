-- ===== src/Server/V2.antt =====
-- Protocol version two on the server (server/server-v2.c): reading tokens, putting continued
-- commands together, and the message loop. `char` is signed, as on the platforms of the project's
-- packages: an octet from 128 on is a negative `char`.
pub mod Messages
pub mod Handle
pub mod Collect
pub mod Continue
pub mod Ends
pub mod Serve
pub mod Tests
use remctl.Base.{
  ℕ, zero, suc, ◌+◌, ◌-◌, ◌%◌, ◌^◌, Bool, true, false, not, ◌&&◌, ◌||◌, Option, none, some, List,
  [], ◌∷◌, ◌++◌, length, ltb, leb, ◌==◌, if◌then◌else◌, Bytes, codes,
}
use remctl.Protocol.{
  ErrorCode, bad_token, bad_command, toomuch_data, unexpected_message, TokenStatus, fail_socket,
  fail_eof, token_max_data, command_max_data,
}
use remctl.Protocol.Message
use remctl.Channel.{Received, token, failed}
use remctl.Server.Session.{
  M, overread, spent, pure, raise, set_keepalive, set_fatal, recv_token, ◌>>=◌, ◌>>◌,
}
use remctl.Server.Callbacks.{error}
use remctl.Server.V2.Messages.{send_version}

-- `server_v2_read_token`: which failures are answered with an error.
pub is_answered : TokenStatus → Bool
is_answered fail_eof = false
is_answered fail_socket = false
is_answered status = true

pub report : Received → M Received
unfolding is_answered
report (token t) = pure (token t)
report (failed status) =
    if is_answered status
    then error bad_token (codes "Invalid token") >> pure (failed status)
    else pure (failed status)

pub read_token : M Received
unfolding report
read_token = do r ← recv_token; report r

-- `p[0] != 2 && p[0] != 3`.
unfoldable pub is_version : ℕ → Bool
is_version p0 = p0 == 2 || p0 == 3

-- The tests of `server_v2_read_continuation` on a token; `none` aborts the command.
pub check_continuation : Received → M (Option Bytes)
unfolding is_version
check_continuation (failed status) = set_fatal true >> pure none
check_continuation (token (p0 ∷ p1 ∷ rest)) =
    if not (is_version p0)
    then send_version >> pure none
    else if p1 == Message.quit
    then set_keepalive false >> pure none
    else if not (p1 == Message.command)
    then error unexpected_message (codes "Unexpected message") >> pure none
    else pure (some (p0 ∷ p1 ∷ rest))
check_continuation (token short) = raise overread

pub read_continuation : M (Option Bytes)
unfolding read_token check_continuation
read_continuation = do r ← read_token; check_continuation r

-- `a > b` for a signed char.
pub char_gt : ℕ → ℕ → Bool
char_gt a b = ltb a 128 && ltb b a

-- "Make sure the continuation is sane."
pub is_bad_continue : ℕ → Bool → Bool
unfolding char_gt
is_bad_continue p3 continued =
    (p3 == 1 && continued) || (char_gt p3 1 && not continued) || char_gt p3 3

-- `COMMAND_MAX_DATA - total`, an unsigned long.
pub room_left : ℕ → ℕ
room_left total = (command_max_data + 2 ^ 64 - total) % 2 ^ 64

-- What the loop of `server_v2_handle_command` leaves: the whole command, or the value of `result`
-- at the label `fail`.
pub data Collected : Type 0 where
  complete : Bytes → Collected
  abandoned : Bool → Collected

abandon : ErrorCode → Bytes → M Collected
abandon code message = do result ← error code message; pure (abandoned result)

-- The loop, on fuel: the current token, the data before it (none of it is the null pointer in
-- `buffer`, with `total` 0), and whether the command was continued.
pub collect : ℕ → Bytes → Bytes → Bool → M Collected
unfolding is_bad_continue room_left abandon
collect zero tok buffer continued = raise spent
collect (suc fuel) (p0 ∷ p1 ∷ p2 ∷ p3 ∷ bytes) buffer continued =
    set_keepalive (not (p2 == 0))
    >> (if ltb token_max_data (4 + length bytes)
        then abandon toomuch_data (codes "Too much data")
        else if is_bad_continue p3 continued
        then abandon bad_command (codes "Invalid command token")
        else if leb (room_left (length buffer)) (length bytes)
        then abandon toomuch_data (codes "Too much data")
        else if p3 == 1 || p3 == 2
        then (read_continuation >>= λ next. elim next [
          | none ↦ pure (abandoned false)
          | some tok ↦ collect fuel tok (buffer ++ bytes) true
        ])
        else pure (complete (buffer ++ bytes)))
collect (suc fuel) short buffer continued = raise overread
