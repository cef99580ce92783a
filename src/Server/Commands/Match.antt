-- ===== src/Server/Commands/Match.antt =====
-- `line_matches` and `find_config_line` of server/commands.c.
use remctl.Base.{
  Bool, false, ◌||◌, Option, none, some, List, [], ◌∷◌, same, if◌then◌else◌, Bytes, codes,
}
use remctl.Server.Rule.{Rule}

-- A word of the configuration against a word of the request; NULL is `none`.
unfoldable pub word_matches : Bytes → Option Bytes → Bool
word_matches word none = same word (codes "ALL") || same word (codes "EMPTY")
word_matches word (some given) = same word (codes "ALL") || same word given

unfoldable pub line_matches : Rule → Option Bytes → Option Bytes → Bool
unfolding word_matches
line_matches rule command subcommand =
    if word_matches rule.command command then word_matches rule.subcommand subcommand else false

unfoldable pub find_config_line : List Rule → Option Bytes → Option Bytes → Option Rule
find_config_line [] command subcommand = none
find_config_line (rule ∷ rules) command subcommand =
    if line_matches rule command subcommand
    then some rule
    else find_config_line rules command subcommand
