-- ===== src/Server/Commands/Argv.antt =====
-- The argument vectors of server/commands.c.
use remctl.Base.{
  ℕ, ◌+◌, ◌-◌, Option, none, some, List, [], ◌∷◌, ◌++◌, length, ◌==◌, if◌then◌else◌, Bytes, codes,
}
use remctl.Server.Rule.{Rule, StdinArg, last, position}

-- `xstrndup`: the octets before the first nul.
unfoldable pub xstrndup : Bytes → Bytes
xstrndup [] = []
xstrndup (b ∷ bytes) = if b == 0 then [] else b ∷ xstrndup bytes

-- `strrchr(path, '/')` and one more: what follows the last slash, and NULL without one.
unfoldable pub behind_slash : Bytes → Option Bytes
behind_slash [] = none
behind_slash (b ∷ path) = elim (behind_slash path) [
  | some name ↦ some name
  | none ↦ if b == b'/' then some path else none
]

unfoldable pub program_name : Bytes → Bytes
unfolding behind_slash
program_name path = elim (behind_slash path) [ some name ↦ name | none ↦ path ]

-- The index of the argument that goes to standard input, where `count` is their number.
unfoldable pub stdin_index : StdinArg → ℕ → ℕ
stdin_index last count = count - 1
stdin_index (position k) count = k

-- The loop over the arguments from index `i` on: those that are passed on, and the one for standard
-- input.
pub record Spliced : Type 0 where
  pub args : List Bytes
  pub input : Option Bytes

unfoldable pub splice : ℕ → ℕ → List Bytes → Spliced
splice stdin i [] = record { args = []; input = none }
splice stdin i (arg ∷ argv) =
    let rest = splice stdin (i + 1) argv in
    if i == stdin
    then record rest { input = some arg }
    else record rest { args = xstrndup arg ∷ rest.args }

abbrev pub tail : List Bytes → List Bytes
tail [] = []
tail (arg ∷ args) = args

-- The part of the vector before the arguments; `path_sudo` is PATH_SUDO, which the build sets.
unfoldable pub program_argv : Bytes → Rule → List Bytes
unfolding program_name
program_argv path_sudo rule = elim rule.sudo_user [
  | none ↦ program_name rule.program ∷ []
  | some sudo_user ↦ path_sudo ∷ codes "-u" ∷ sudo_user ∷ codes "--" ∷ rule.program ∷ []
]

unfoldable pub create_argv_command : Bytes → Rule → List Bytes → Spliced
unfolding splice stdin_index program_argv xstrndup
create_argv_command path_sudo rule argv =
    let rest = splice (stdin_index rule.stdin_arg (length argv)) 1 (tail argv) in
    record rest { args = program_argv path_sudo rule ++ rest.args }

unfoldable pub create_argv_help : Bytes → Bytes → Option Bytes → List Bytes
unfolding program_name
create_argv_help path command none = program_name path ∷ command ∷ []
create_argv_help path command (some subcommand) = program_name path ∷ command ∷ subcommand ∷ []
