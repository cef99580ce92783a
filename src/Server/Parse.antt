-- ===== src/Server/Parse.antt =====
-- `server_parse_command` of server/generic.c: the payload of a command, taken apart into its
-- arguments. The rest of the buffer stands for the pointer `p`.
pub mod Sound
pub mod Complete
pub mod Errors
pub mod Tests
use remctl.Base.{
  ℕ, zero, suc, ◌*◌, ◌&&◌, List, [], ◌∷◌, length, take, drop, ltb, leb, ◌==◌, if◌then◌else◌, Bytes,
  codes, ntohl,
}
use remctl.Protocol.{ErrorCode, bad_command, unknown_command, toomany_args, command_max_args}

-- The returned argv, the error that is sent to the client, or a read past the end of the buffer.
pub data Parsed : Type 0 where
  parsed : List Bytes → Parsed
  refused : ErrorCode → Bytes → Parsed
  overread : Parsed

unfoldable pub invalid : Parsed
invalid = refused bad_command (codes "Invalid command token")

-- Stores one argument in front of those that the rest of the loop stores.
pub add : Bytes → Parsed → Parsed
add arg (parsed args) = parsed (arg ∷ args)
add arg (refused code message) = refused code message
add arg overread = overread

-- The test behind the loop; the first argument is `argc - count`.
pub finish : ℕ → Bytes → Parsed
unfolding invalid
finish left rest = if left == 0 && length rest == 0 then parsed [] else invalid

-- The loop over the arguments. Its test is `p <= buffer + length - 4`.
pub parse_args : ℕ → Bytes → Parsed
unfolding invalid add finish
parse_args zero rest = if leb 4 (length rest) then invalid else finish 0 rest
parse_args (suc left) rest =
    let arglen = ntohl rest in
    let p = drop 4 rest in
    let more = add (take arglen p) (parse_args left (drop arglen p)) in
    if leb 4 (length rest)
    then (if ltb (length p) arglen then invalid else more)
    else finish (suc left) rest

unfoldable pub parse_command : Bytes → Parsed
unfolding invalid parse_args
parse_command buffer =
    let argc = ntohl buffer in
    let p = drop 4 buffer in
    if ltb (length buffer) 4
    then overread
    else if argc == 0
    then refused unknown_command (codes "Unknown command")
    else if ltb command_max_args argc
    then refused toomany_args (codes "Too many arguments")
    else if ltb (length p) (4 * argc)
    then invalid
    else parse_args argc p
