-- ===== src/Server/Ssh.antt =====
-- `server_ssh_parse_command` of server/server-ssh.c: the command line that ssh passes on, taken apart
-- into arguments. A C string is the list of its octets before the nul.
pub mod Quoted
pub mod Messages
pub mod Output
pub mod Program
pub mod Shell
pub mod Tests
use remctl.Base.{ℕ, Bool, Option, none, some, List, [], ◌∷◌, ◌++◌, ◌||◌, ◌==◌, if◌then◌else◌, Bytes}
use remctl.Server.Acl.Lines.{isspace}

-- `enum state`, with the quote that ends a quoted string.
pub data State : Type 0 where
  separator arg : State
  quoted : ℕ → State

-- What one octet does: it changes the state and adds octets to the argument, or ends the argument.
pub data Step : Type 0 where
  change : State → Bytes → Step
  finished : Step

unfoldable pub is_quote : ℕ → Bool
is_quote c = c == 39 || c == 34

-- The switch over the state, for an octet that is not escaped.
unfoldable pub next_step : State → ℕ → Step
unfolding is_quote isspace
next_step separator c =
    if isspace c
    then change separator []
    else if is_quote c
    then change (quoted c) []
    else change arg (c ∷ [])
next_step (quoted quote) c = if c == quote then change arg [] else change (quoted quote) (c ∷ [])
next_step arg c =
    if isspace c then finished else if is_quote c then change (quoted c) [] else change arg (c ∷ [])

-- The state behind an escaped octet.
unfoldable pub escape : State → State
escape separator = arg
escape state = state

unfoldable pub add_arg : Bytes → Option (List Bytes) → Option (List Bytes)
add_arg value none = none
add_arg value (some args) = some (value ∷ args)

unfoldable pub follow : Step → Bytes → (State → Bytes → Option (List Bytes)) → Option (List Bytes)
unfolding add_arg
follow (change state piece) value next = next state (value ++ piece)
follow finished value next = add_arg value (next separator [])

-- "Ending inside a quoted string is an error."
unfoldable pub finish_command : State → Bytes → Option (List Bytes)
finish_command separator value = some []
finish_command arg value = some (value ∷ [])
finish_command (quoted quote) value = none

-- The loop over the octets; a backslash at the end of the string is an octet like others.
unfoldable pub parse_from : State → Bytes → Bytes → Option (List Bytes)
unfolding next_step escape follow finish_command
parse_from state value [] = finish_command state value
parse_from state value (c ∷ []) =
    follow (next_step state c) value (λ next piece. finish_command next piece)
parse_from state value (c ∷ d ∷ rest) =
    let escaped = parse_from (escape state) (value ++ d ∷ []) rest in
    let plain = follow (next_step state c) value (λ next piece. parse_from next piece (d ∷ rest)) in
    if c == 92 then escaped else plain

unfoldable pub server_ssh_parse_command : Bytes → Option (List Bytes)
unfolding parse_from
server_ssh_parse_command command = parse_from separator [] command
