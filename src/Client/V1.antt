-- ===== src/Client/V1.antt =====
-- Protocol version one on the client (client/client-v1.c). A `size_t` has 64 bits, and an `int` 32.
pub mod Sent
use remctl.Base.{
  ℕ, ◌+◌, ◌-◌, ◌^◌, ◌%◌, ◌∷◌, ◌++◌, [], Bool, true, false, not, Option, none, some, List, length,
  drop, ltb, leb, ◌==◌, if◌then◌else◌, Bytes, htonl, ntohl,
}
use remctl.Base.Int.{ℤ, pos, negsuc}
use remctl.Protocol.{TokenStatus, uint32_max}
use remctl.Channel.{Received, token, failed}
use remctl.Client.V2.Output.{Output, output, status, error}
use remctl.Client.Session.{
  Error, token_error, unexpected_token, malformed_token, too_many_arguments, component_too_long,
  too_large, Slot, finished, holds, Remctl, set_error, close_connection, token_data, send_priv,
  recv_priv, socket_close,
}

-- The total length, where no sum passes SIZE_MAX: `token.length` from `total` on.
unfoldable pub total_length : ℕ → List Bytes → Option ℕ
total_length total [] = some total
total_length total (arg ∷ args) =
    if leb ((2 ^ 64 - 1 + 2 ^ 64 - 4 - length arg) % 2 ^ 64) total
    then none
    else total_length (total + (4 + length arg)) args

unfoldable pub prepend : Bytes → Option Bytes → Option Bytes
prepend bytes none = none
prepend bytes (some rest) = some (bytes ++ rest)

-- The arguments behind their count, where each length fits.
unfoldable pub write_args : List Bytes → Option Bytes
unfolding prepend
write_args [] = some []
write_args (arg ∷ args) =
    if ltb uint32_max (length arg)
    then none
    else prepend (htonl (length arg) ++ arg) (write_args args)

-- A command that is sent is expected to be answered.
unfoldable pub mark_ready : Bool × Remctl → Bool × Remctl
mark_ready (false, r) = (false, r)
mark_ready (true, r) = (true, record r { is_ready = true })

unfoldable pub send_written : ℕ → Option Bytes → Remctl → Bool × Remctl
unfolding mark_ready
send_written count none r = (false, set_error component_too_long r)
send_written count (some args) r = mark_ready (send_priv (htonl count ++ args) r)

unfoldable pub send_sized : Option ℕ → List Bytes → Remctl → Bool × Remctl
unfolding send_written write_args
send_sized none command r = (false, set_error too_large r)
send_sized (some total) command r = send_written (length command) (write_args command) r

unfoldable pub internal_v1_commandv : Remctl → List Bytes → Bool × Remctl
unfolding send_sized total_length
internal_v1_commandv r command =
    if ltb uint32_max (length command)
    then (false, set_error too_many_arguments r)
    else send_sized (total_length 4 command) command r

-- The value of 32 bits as an `int`.
unfoldable pub signed_int : ℕ → ℤ
signed_int n = if ltb n (2 ^ 31) then pos n else negsuc (2 ^ 32 - 1 - n)

-- The connection is closed after an end of file and after a timeout, and no answer is expected.
unfoldable pub close_if_lost : TokenStatus → Remctl → Remctl
close_if_lost TokenStatus.fail_eof r = record (close_connection r) { is_ready = false }
close_if_lost TokenStatus.fail_timeout r = record (close_connection r) { is_ready = false }
close_if_lost other r = r

-- The token's output, always on stream 1; the exit status is kept for the next call. Only one round
-- can be done with protocol version one, so the connection is closed.
unfoldable pub keep_output : Bytes → Remctl → Option Slot × Remctl
keep_output string r = (
  some (holds (output 1 string)),
  record (close_connection r) { output = some (holds (output 1 string)); is_ready = false },
)

-- The return code is kept before the length is tested.
unfoldable pub read_result : Bytes → Remctl → Option Slot × Remctl
unfolding signed_int keep_output
read_result tok r =
    if ltb (length tok) 8
    then (none, set_error malformed_token r)
    else (let r' = record r { status = signed_int (ntohl tok) } in
        if not (ntohl (drop 4 tok) == length tok - 8)
        then (none, set_error malformed_token r')
        else keep_output (drop 8 tok) r')

unfoldable pub check_token : Received → ℕ → Remctl → Option Slot × Remctl
unfolding read_result close_if_lost
check_token (failed why) flags r = (none, close_if_lost why (set_error (token_error why) r))
check_token (token tok) flags r =
    if not (flags == token_data) then (none, set_error unexpected_token r) else read_result tok r

unfoldable pub read_answer : Remctl → Option Slot × Remctl
unfolding check_token
read_answer r = let (got, flags, r') = recv_priv token_data r in check_token got flags r'

-- The slot of a later call: the exit status, or REMCTL_OUT_DONE right behind it.
unfoldable pub next_slot : Slot → ℤ → Slot
next_slot (holds (status code)) kept = finished
next_slot other kept = holds (status kept)

unfoldable pub later_output : Remctl → Option Slot → Option Slot × Remctl
unfolding next_slot read_answer
later_output r none = read_answer r
later_output r (some slot) =
    if r.is_ready
    then read_answer r
    else (some (next_slot slot r.status), record r { output = some (next_slot slot r.status) })

unfoldable pub internal_v1_output : Remctl → Option Slot × Remctl
unfolding later_output
internal_v1_output r = later_output r r.output
