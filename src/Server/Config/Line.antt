-- ===== src/Server/Config/Line.antt =====
-- One configuration line, split into words, in `read_conf_file` of server/config.c.
use remctl.Base.{ℕ, Option, none, some, List, [], ◌∷◌, if◌then◌else◌, Bytes}
use remctl.Server.Rule.{Rule, position}
use remctl.Server.Config.{is_option}
use remctl.Server.Config.Options.{Users, parse_conf_option}

-- The rule as `xcalloc` leaves it, with its name and the first words.
abbrev pub new_rule : Bytes → ℕ → Bytes → Bytes → Bytes → Rule
new_rule name lineno command subcommand program = record {
  file = name;
  lineno = lineno;
  command = command;
  subcommand = subcommand;
  program = program;
  logmask = [];
  stdin_arg = position 0;
  user = none;
  sudo_user = none;
  uid = 0;
  gid = 0;
  summary = none;
  help = none;
  acls = [];
}

-- The loop over the options goes on with the rule that an option returns.
unfoldable pub with_option : Option Rule → (Rule → Option Rule) → Option Rule
with_option none next = none
with_option (some rule) next = next rule

-- The loop over the options, and the ACLs behind it.
unfoldable pub parse_words : Users → Rule → List Bytes → Option Rule
unfolding with_option
parse_words users rule [] = none
parse_words users rule (word ∷ words) =
    if is_option word
    then with_option (parse_conf_option users rule word) (λ next. parse_words users next words)
    else some (record rule { acls = word ∷ words })

unfoldable pub parse_rule : Users → Bytes → ℕ → List Bytes → Option Rule
unfolding parse_words
parse_rule users name lineno (command ∷ subcommand ∷ program ∷ word ∷ words) =
    parse_words users (new_rule name lineno command subcommand program) (word ∷ words)
parse_rule users name lineno short = none
