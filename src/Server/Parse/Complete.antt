-- ===== src/Server/Parse/Complete.antt =====
-- Every payload that follows the protocol is accepted, and read as its arguments.
use remctl.Base.{
  ℕ, suc, ◌*◌, ◌≤◌, ◌<◌, ◌^◌, ◌≡◌, refl, true, List, [], ◌∷◌, ◌++◌, arith, length, drop, leb,
  le→leb, le→not_ltb, length-append, take-length-append, drop-length-append, Bytes, htonl,
  ntohl-htonl, length-htonl,
}
use remctl.Protocol.{command_max_args}
use remctl.Server.Parse.{parsed, add, parse_args, parse_command}
use remctl.Protocol.Wire.{body, payload, FitsWire}

four_octets : (n : ℕ) (rest : Bytes) → leb 4 (length (htonl n ++ rest)) ≡ true
unfolding htonl
four_octets n rest = le→leb 4 _ (omega arith)

drop-htonl : (n : ℕ) (rest : Bytes) → drop 4 (htonl n ++ rest) ≡ rest
unfolding htonl
drop-htonl n rest = refl

parse_args_step :
    (left : ℕ) (arg rest : Bytes)
    → length arg < 2 ^ 32
    → parse_args (suc left) (htonl (length arg) ++ arg ++ rest) ≡ add arg (parse_args left rest)
unfolding parse_args htonl
parse_args_step left arg rest h = rw (
  four_octets (length arg) (arg ++ rest),
  drop-htonl (length arg) (arg ++ rest),
  ntohl-htonl (length arg) (arg ++ rest) h,
  le→not_ltb (length (arg ++ rest)) (length arg) (omega (arith, length-append arg rest)),
  take-length-append arg rest,
  drop-length-append arg rest,
)

pub parse_args-body :
    (args : List Bytes) → FitsWire args → parse_args (length args) (body args) ≡ parsed args
unfolding body
parse_args-body [] h = unfold parse_args in refl
parse_args-body (arg ∷ args) (h, hs) =
    rw (parse_args_step (length args) arg (body args) h, parse_args-body args hs)
      (unfold add in refl)

pub length-body-ge : (args : List Bytes) → 4 * length args ≤ length (body args)
unfolding body htonl
length-body-ge [] = omega arith
length-body-ge (arg ∷ args) = omega (
  arith,
  length-append (htonl (length arg)) (arg ++ body args),
  length-append arg (body args),
  length-htonl (length arg),
  length-body-ge args,
)

-- A payload with 1 to `command_max_args` arguments, whose lengths fit 32 bits, is read as exactly
-- those arguments.
pub parse_command-payload :
    (args : List Bytes)
    → 1 ≤ length args
    → length args ≤ command_max_args
    → FitsWire args
    → parse_command (payload args) ≡ parsed args
unfolding parse_command payload
parse_command-payload args h1 h2 h =
    rw
      (
        le→not_ltb (length (htonl (length args) ++ body args)) 4 (
            omega
              (arith, length-append (htonl (length args)) (body args), length-htonl (length args))),
        drop-htonl (length args) (body args),
        ntohl-htonl (length args) (body args) (omega arith),
      )
      (ground (arith, parse_args-body args h, length-body-ge args))
