-- ===== src/Server/Acl/Tests.antt =====
-- A small system with ACL files, and the theorems on access control at it.
use remctl.Base.{
  ℕ, zero, suc, ◌<◌, Bool, All, arith, ◌≡◌, ◌≢◌, ◌↔◌, refl, true, false, Option, none, some, List,
  [], ◌∷◌, ◌++◌, same, Bytes, codes, if◌then◌else◌,
}
use remctl.Server.Rule.{Rule, last}
use remctl.Server.Session.{v2, blank, Client}
use remctl.Server.Acl.{success, error, Answer, decided, Kind, regular, directory, System}
use remctl.Server.Acl.Lines
use remctl.Server.Acl.Lines.{break_at}
use remctl.Server.Acl.Check.{acl_check, acl_check_princ, expand, server_config_acl_permit}
use remctl.Server.Acl.First.{Granted, server_config_acl_permit_iff}
use remctl.Server.Acl.Include.{valid_filename}
use remctl.Server.Acl.Leads.{rounds, Leads, LineLeads, IsRanked}
use remctl.Server.Acl.Nesting.{server_config_acl_permit_ends}
use mathlib.Core.Path.{subst}

abbrev test_client : Client
test_client = record {
  protocol = 2;
  user = codes "test@EXAMPLE.ORG";
  anonymous = false;
  keepalive = false;
  fatal = false;
  channel = record { sent = []; outcomes = []; incoming = [] };
  callbacks = v2;
  terminal = blank;
}

-- A file with a comment, a user and an included directory.
abbrev test_lines : List Bytes
test_lines =
    (codes "# users" ++ 10 ∷ [])
    ∷ (codes "other@EXAMPLE.ORG" ++ 10 ∷ [])
    ∷ (codes "include dir" ++ 10 ∷ [])
    ∷ []

unfoldable pub test_stat : Bytes → Option Kind
test_stat name =
    if same name (codes "dir")
    then some (directory (some (codes "." ∷ codes "a" ∷ [])))
    else some regular

unfoldable pub test_read : Bytes → Option (List Bytes)
test_read name =
    if same name (codes "acl")
    then some test_lines
    else some ((codes "  test@EXAMPLE.ORG" ++ 10 ∷ []) ∷ [])

abbrev pub test_system : System
test_system = record {
  bufsiz = 8192;
  stat = test_stat;
  lines = test_read;
  gput = none;
  localgroup = none;
  pcre = none;
  regex = none;
}

abbrev pub test_rule : Rule
test_rule = record {
  file = codes "conf";
  lineno = 1;
  command = codes "a";
  subcommand = codes "ALL";
  program = codes "/bin/run";
  logmask = [];
  stdin_arg = last;
  user = none;
  sudo_user = none;
  uid = 0;
  gid = 0;
  summary = none;
  help = none;
  acls = codes "deny:other@EXAMPLE.ORG" ∷ codes "acl" ∷ [];
}

test_permit : server_config_acl_permit test_system test_client 9 test_rule ≡ some true
unfolding server_config_acl_permit test_stat test_read same acl_check_princ Lines.parse_line
test_permit = refl

test_check :
    acl_check test_system test_client 9 (codes "acl") Lines.file (codes "conf") ≡ decided success
unfolding acl_check test_stat test_read same acl_check_princ Lines.parse_line
test_check = refl

server_config_acl_permit_iff_example :
    (server_config_acl_permit test_system test_client 9 test_rule ≡ some true)
    ↔ Granted test_system test_client 8 (codes "conf") test_rule.acls
server_config_acl_permit_iff_example =
    server_config_acl_permit_iff test_system test_client 8 test_rule

unfoldable test_function : Bytes → Answer
test_function name = if same name (codes "dir/a") then decided success else decided error

test_found : test_system.stat (codes "dir") ≡ some (directory (some (codes "." ∷ codes "a" ∷ [])))
unfolding test_stat same
test_found = refl

-- The ACL file reads the directory, whose file reads none.
unfoldable pub test_rank : Bytes → ℕ
test_rank name = if same name (codes "acl") then 1 else 0

-- The user of a line, or of a denial, leads to no file.
user-Leads :
    (c : Client) (rank n : ℕ)
    → Leads test_system c (λ name. test_rank name < rank) n (codes "other@EXAMPLE.ORG") Lines.princ
      × Leads test_system c (λ name. test_rank name < rank) n (codes "test@EXAMPLE.ORG") Lines.princ
unfolding expand same break_at
user-Leads c rank zero = (tt, tt)
user-Leads c rank (suc n) = (tt, tt)

directory-Leads :
    (c : Client) (n : ℕ)
    → Leads test_system c (λ name. test_rank name < 1) n (codes "dir") Lines.file
unfolding expand same break_at test_stat test_rank valid_filename
directory-Leads c zero = tt
directory-Leads c (suc n) = (λ e. absurd (cc e), (λ e. omega arith, tt))

read_ranked :
    (c : Client) (is_acl : Bool) (strings : List Bytes)
    → (if is_acl then some test_lines else some ((codes "  test@EXAMPLE.ORG" ++ 10 ∷ []) ∷ []))
      ≡ some strings
    → All
        (λ string.
          LineLeads test_system c 30
            (λ included. test_rank included < (if is_acl then 1 else 0))
            (Lines.parse_line 8192 string))
        strings
unfolding Lines.parse_line rounds same
read_ranked c true strings e =
    let same_lines : test_lines ≡ strings = cc e in
    subst
      (λ x.
        All
          (λ string.
            LineLeads test_system c 30 (λ included. test_rank included < 1)
              (Lines.parse_line 8192 string))
          x)
      same_lines
      (tt, ((omega arith, λ n. (user-Leads c 1 n).0), ((omega arith, directory-Leads c), tt)))
read_ranked c false strings e =
    let same_lines : (codes "  test@EXAMPLE.ORG" ++ 10 ∷ []) ∷ [] ≡ strings = cc e in
    subst
      (λ x.
        All
          (λ string.
            LineLeads test_system c 30 (λ included. test_rank included < 0)
              (Lines.parse_line 8192 string))
          x)
      same_lines ((omega arith, λ n. (user-Leads c 0 n).1), tt)

pub test_system-IsRanked : (c : Client) → IsRanked test_system c 30 test_rank
unfolding test_read test_rank
test_system-IsRanked c name strings e = read_ranked c (same name (codes "acl")) strings e

pub denial-Leads :
    (c : Client) (n : ℕ)
    → Leads test_system c (λ name. test_rank name < 2) n (codes "deny:other@EXAMPLE.ORG") Lines.file
unfolding expand same break_at Lines.find_scheme
denial-Leads c zero = tt
denial-Leads c (suc n) = (user-Leads c 2 n).0

pub file-Leads :
    (c : Client) (n : ℕ)
    → Leads test_system c (λ name. test_rank name < 2) n (codes "acl") Lines.file
unfolding expand same break_at test_stat test_rank
file-Leads c zero = tt
file-Leads c (suc n) = omega arith

server_config_acl_permit_ends_example :
    server_config_acl_permit test_system test_client 90 test_rule ≢ none
server_config_acl_permit_ends_example =
    server_config_acl_permit_ends test_system test_client 30 test_rank 90 2
      (test_system-IsRanked test_client) (omega arith) test_rule
      ((omega arith, denial-Leads test_client), ((omega arith, file-Leads test_client), tt))
