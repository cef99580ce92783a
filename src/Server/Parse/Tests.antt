-- ===== src/Server/Parse/Tests.antt =====
-- Commands on the wire, and the theorems at them.
use remctl.Base.{◌≡◌, ◌≤◌, ◌<◌, ◌↔◌, refl, List, [], ◌∷◌, arith, length, Bytes, codes, htonl, ntohl}
use remctl.Protocol.{command_max_args, unknown_command, toomany_args}
use remctl.Server.Parse.{parsed, refused, overread, invalid, parse_command}
use remctl.Protocol.Wire.{body, payload, FitsWire}
use remctl.Server.Parse.Complete.{parse_command-payload}
use remctl.Server.Parse.Sound.{parse_command_sound}
use remctl.Server.Parse.Errors.{InRange, parse_command-eq-invalid, parse_command_refuses}

abbrev test_args : List Bytes
test_args = codes "test" ∷ [] ∷ codes "a b" ∷ []

abbrev test_buffer : Bytes
test_buffer =
    0 ∷ 0 ∷ 0 ∷ 3 ∷ 0 ∷ 0 ∷ 0 ∷ 4 ∷ 116 ∷ 101 ∷ 115 ∷ 116 ∷ 0 ∷ 0 ∷ 0 ∷ 0 ∷ 0 ∷ 0 ∷ 0 ∷ 3 ∷ 97 ∷ 32
    ∷ 98 ∷ []

test_payload : payload test_args ≡ test_buffer
unfolding payload body htonl
test_payload = refl

test_parse : parse_command test_buffer ≡ parsed test_args
unfolding parse_command ntohl
test_parse = refl

-- One argument more than the count says.
abbrev long_buffer : Bytes
long_buffer = 0 ∷ 0 ∷ 0 ∷ 1 ∷ 0 ∷ 0 ∷ 0 ∷ 1 ∷ 97 ∷ 0 ∷ 0 ∷ 0 ∷ 0 ∷ []

long_parse : parse_command long_buffer ≡ invalid
unfolding parse_command ntohl
long_parse = refl

short_parse : parse_command (0 ∷ 0 ∷ []) ≡ overread
unfolding parse_command ntohl
short_parse = refl

parse_command-payload_example : parse_command (payload test_args) ≡ parsed test_args
parse_command-payload_example =
    parse_command-payload test_args (omega arith) (omega arith) (omega arith)

parse_command_sound_example :
    (test_buffer ≡ payload test_args)
    × (1 ≤ length test_args)
    × (length test_args ≤ command_max_args)
    × FitsWire test_args
parse_command_sound_example = parse_command_sound test_buffer test_args (omega arith) test_parse

count-InRange : InRange (ntohl long_buffer)
unfolding ntohl
count-InRange = omega arith

parse_command-eq-invalid_example : (parse_command long_buffer ≡ invalid) ↔ (
    ¬ ((args : List Bytes) × InRange (length args) × FitsWire args × (long_buffer ≡ payload args)))
parse_command-eq-invalid_example =
    parse_command-eq-invalid long_buffer (omega arith) (omega arith) count-InRange

parse_command_refuses_example :
    ((parse_command test_buffer ≡ overread) ↔ (length test_buffer < 4))
    × ((parse_command test_buffer ≡ refused unknown_command (codes "Unknown command"))
        ↔ ((4 ≤ length test_buffer) × (ntohl test_buffer ≡ 0)))
    × ((parse_command test_buffer ≡ refused toomany_args (codes "Too many arguments"))
        ↔ ((4 ≤ length test_buffer) × (command_max_args < ntohl test_buffer)))
parse_command_refuses_example = parse_command_refuses test_buffer
