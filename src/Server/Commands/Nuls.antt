-- ===== src/Server/Commands/Nuls.antt =====
-- The tests of `server_run_command` for nul octets.
use remctl.Base.{
  ℕ, ◌+◌, Bool, true, false, not, ◌&&◌, ◌||◌, Option, none, some, List, [], ◌∷◌, ◌==◌, Bytes,
}
use remctl.Server.Rule.{Rule, last, position}

-- `memchr(base, '\0', len)`.
unfoldable pub has_nul : Bytes → Bool
has_nul [] = false
has_nul (b ∷ bytes) = b == 0 || has_nul bytes

-- The command and the subcommand.
unfoldable pub word_has_nul : List Bytes → Bool
unfolding has_nul
word_has_nul [] = false
word_has_nul (command ∷ []) = has_nul command
word_has_nul (command ∷ subcommand ∷ rest) = has_nul command || has_nul subcommand

unfoldable pub is_last : List Bytes → Bool
is_last [] = true
is_last (arg ∷ argv) = false

-- Whether the loop skips the argument at index `i`; `behind` are the arguments that follow it.
unfoldable pub is_exempt : Option Rule → Bool → ℕ → List Bytes → Bool
unfolding is_last
is_exempt none help i behind = false
is_exempt (some rule) help i behind = elim rule.stdin_arg [
  | last ↦ is_last behind
  | position k ↦ not help && i == k
]

-- The loop over the arguments from index `i` on.
unfoldable pub arg_has_nul : Option Rule → Bool → ℕ → List Bytes → Bool
unfolding is_exempt has_nul
arg_has_nul rule help i [] = false
arg_has_nul rule help i (arg ∷ argv) =
    (not (is_exempt rule help i argv) && has_nul arg) || arg_has_nul rule help (i + 1) argv
