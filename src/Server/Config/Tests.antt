-- ===== src/Server/Config/Tests.antt =====
-- A configuration line, and the theorems on options at it.
use remctl.Base.{◌≡◌, refl, none, some, List, [], ◌∷◌, Bytes, codes, same}
use remctl.Server.Rule.{Rule, last}
use remctl.Server.Config.{is_option}
use remctl.Server.Config.Options.{Users, parse_conf_option}
use remctl.Server.Config.Line.{parse_rule, new_rule}

abbrev no_users : Users
no_users = record { getpwuid = λ uid. none; getpwnam = λ name. none }

abbrev test_words : List Bytes
test_words =
    codes "a"
    ∷ codes "ALL"
    ∷ codes "/bin/run"
    ∷ codes "stdin=last"
    ∷ codes "logmask=3,4"
    ∷ codes "anyuser:auth"
    ∷ []

abbrev test_rule : Rule
test_rule = record (new_rule (codes "conf") 7 (codes "a") (codes "ALL") (codes "/bin/run")) {
  stdin_arg = last;
  logmask = 3 ∷ 4 ∷ [];
  acls = codes "anyuser:auth" ∷ [];
}

test_parse : parse_rule no_users (codes "conf") 7 test_words ≡ some test_rule
unfolding parse_rule is_option parse_conf_option same
test_parse = refl
