-- ===== src/Server/Log/Tests.antt =====
-- Logged commands.
use remctl.Base.{◌≡◌, refl, inl, inr, none, some, List, [], ◌∷◌, Bytes, codes, arith}
use remctl.Server.Rule.{Rule, last}
use remctl.Server.Log.{server_log_command}
use remctl.Server.Log.Hidden.{SamePublic, server_log_command-SamePublic}

abbrev test_rule : Rule
test_rule = record {
  file = codes "conf";
  lineno = 1;
  command = codes "passwd";
  subcommand = codes "ALL";
  program = codes "/bin/run";
  logmask = 2 ∷ [];
  stdin_arg = last;
  user = none;
  sudo_user = none;
  uid = 0;
  gid = 0;
  summary = none;
  help = none;
  acls = [];
}

abbrev one : List Bytes
one = codes "passwd" ∷ codes "set" ∷ codes "secret" ∷ codes "user" ∷ (1 ∷ 0 ∷ []) ∷ []

abbrev other : List Bytes
other = codes "passwd" ∷ codes "set" ∷ codes "hidden" ∷ codes "user" ∷ (2 ∷ []) ∷ []

one-SamePublic-other : SamePublic test_rule 0 one other
one-SamePublic-other = (
  inl refl,
  (
    inl refl,
    (inr (omega arith, inl ([], [], refl, tt)), (inl refl, (inr (omega arith, inr refl), tt))),
  ),
)

test_log :
    server_log_command (codes "a" ∷ codes "b c" ∷ codes "d" ∷ []) (some test_rule) (codes "u")
    ≡ codes "COMMAND from u: a b c **DATA**"
unfolding server_log_command
test_log = refl

server_log_command-SamePublic_example :
    server_log_command one (some test_rule) (codes "u")
    ≡ server_log_command other (some test_rule) (codes "u")
server_log_command-SamePublic_example =
    server_log_command-SamePublic test_rule one other (codes "u") one-SamePublic-other
