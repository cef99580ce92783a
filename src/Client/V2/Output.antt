-- ===== src/Client/V2/Output.antt =====
-- `internal_v2_output` of client/client-v2.c, from the token on that `internal_v2_read_token` has
-- received. A `char` is signed. An error is a missing result.
use remctl.Base.{
  ℕ, ◌-◌, not, ◌||◌, Option, none, some, [], ◌∷◌, length, drop, ltb, ◌==◌, if◌then◌else◌, Bytes,
  ntohl,
}
use remctl.Base.Int.{ℤ, pos, negsuc}
use remctl.Protocol.Message

-- `struct remctl_output` by its type.
pub data Output : Type 0 where
  output : ℕ → Bytes → Output
  status : ℤ → Output
  error : ℕ → Bytes → Output

-- The value of a signed char.
unfoldable pub signed : ℕ → ℤ
signed p = if ltb p 128 then pos p else negsuc (255 - p)

unfoldable pub read_string : Bytes → Option Bytes
read_string rest =
    let string = drop 4 rest in if ntohl rest == length string then some string else none

unfoldable pub output_of : ℕ → Option Bytes → Option Output
output_of stream none = none
output_of stream (some string) = some (output stream string)

unfoldable pub error_of : ℕ → Option Bytes → Option Output
error_of code none = none
error_of code (some message) = some (error code message)

unfoldable pub read_output : Bytes → Option Output
unfolding read_string output_of
read_output [] = none
read_output (stream ∷ rest) =
    if ltb (length rest) 4
    then none
    else if stream == 1 || stream == 2
    then output_of stream (read_string rest)
    else none

unfoldable pub read_status : Bytes → Option Output
unfolding signed
read_status (octet ∷ []) = some (status (signed octet))
read_status other = none

unfoldable pub read_error : Bytes → Option Output
unfolding read_string error_of
read_error rest =
    if ltb (length rest) 8 then none else error_of (ntohl rest) (read_string (drop 4 rest))

unfoldable pub read_result : Bytes → Option Output
unfolding read_output read_status read_error
read_result (p0 ∷ p1 ∷ rest) =
    if not (p0 == 2 || p0 == 3)
    then none
    else if p1 == Message.output
    then read_output rest
    else if p1 == Message.status
    then read_status rest
    else if p1 == Message.error
    then read_error rest
    else none
read_result short = none
