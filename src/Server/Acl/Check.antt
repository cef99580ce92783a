-- ===== src/Server/Acl/Check.antt =====
-- The schemes, `acl_check` and `server_config_acl_permit` of server/config.c. A scheme gets the
-- recursive calls of `acl_check` as the function `check`.
use remctl.Base.{
  ℕ, zero, suc, Bool, true, false, ◌||◌, Option, none, some, List, [], ◌∷◌, same, ◌==◌,
  if◌then◌else◌, Bytes, codes,
}
use remctl.Server.Rule.{Rule}
use remctl.Server.Session.{Client}
use remctl.Server.Acl.{
  Status, success, nomatch, error, deny, Answer, decided, spent, Lookup, failed, absent, found,
  Matched, matched, not_matched, match_failed, Engine, Gput, Group, Groups, System,
}
use remctl.Server.Acl.Lines
use remctl.Server.Acl.Lines.{
  Scheme, Line, skipped, malformed, acl_entry, parse_line, break_at, schemes, find_scheme,
}
use remctl.Server.Acl.Include.{handle_include}

unfoldable pub acl_check_princ : Client → Bytes → Status
acl_check_princ client value = if same client.user value then success else nomatch

unfoldable pub acl_check_anyuser : Client → Bytes → Status
acl_check_anyuser client value =
    if same value (codes "auth")
    then (if client.anonymous then nomatch else success)
    else if same value (codes "anonymous")
    then success
    else error

-- `acl_check_deny` behind its call of `acl_check`.
unfoldable pub acl_check_deny : Answer → Answer
acl_check_deny (decided success) = decided deny
acl_check_deny (decided nomatch) = decided nomatch
acl_check_deny (decided deny) = decided nomatch
acl_check_deny (decided error) = decided error
acl_check_deny spent = spent

-- `acl_check_pcre` and `acl_check_regex`.
unfoldable pub status_of : Matched → Status
status_of matched = success
status_of not_matched = nomatch
status_of match_failed = error

unfoldable pub acl_check_regex : Engine → Client → Bytes → Status
unfolding status_of
acl_check_regex engine client value =
    if engine.compile value then status_of (engine.execute value client.user) else error

unfoldable pub gput_status : Gput → Client → Bytes → Option Bytes → Status
gput_status gput client role xform =
    if gput.open_file
    then (if gput.check role client.user xform then success else nomatch)
    else error

-- The part of the value behind a bracket.
unfoldable pub gput_transform : Gput → Client → Bytes → Option (Bytes × Bytes) → Status
unfolding gput_status
gput_transform gput client role none = error
gput_transform gput client role (some (xform, [])) = gput_status gput client role (some xform)
gput_transform gput client role (some (xform, c ∷ rest)) = error

unfoldable pub gput_parsed : Gput → Client → Bytes → Option (Bytes × Bytes) → Status
unfolding gput_transform break_at
gput_parsed gput client value none = gput_status gput client value none
gput_parsed gput client value (some (role, rest)) =
    gput_transform gput client role (break_at b']' rest)

unfoldable pub acl_check_gput : Gput → Client → Bytes → Status
unfolding gput_parsed
acl_check_gput gput client value = gput_parsed gput client value (break_at b'[' value)

unfoldable pub is_member : Bytes → List Bytes → Bool
is_member name [] = false
is_member name (member ∷ members) = same name member || is_member name members

-- The steps of `acl_check_localgroup`, from the last to the first.
unfoldable pub local_user : Group → Bytes → Option ℕ → Status
unfolding is_member
local_user group name none = nomatch
local_user group name (some gid) =
    if group.gid == gid || is_member name group.members then success else nomatch

unfoldable pub local_name : Groups → Group → Lookup Bytes → Status
unfolding local_user
local_name groups group failed = error
local_name groups group absent = nomatch
local_name groups group (found name) = local_user group name (groups.getpwnam name)

unfoldable pub local_group : Groups → Client → Lookup Group → Status
unfolding local_name
local_group groups client failed = error
local_group groups client absent = nomatch
local_group groups client (found group) = local_name groups group (groups.localname client.user)

unfoldable pub acl_check_localgroup : Groups → Client → Bytes → Status
unfolding local_group
acl_check_localgroup groups client group = local_group groups client (groups.getgrnam group)

-- A scheme that the build leaves out is an error.
unfoldable pub supported {ℓ} : {A : Type ℓ} → Option A → (A → Status) → Answer
supported none check = decided error
supported (some library) check = decided (check library)

module _ (system : System) (client : Client) where
  -- One line of an ACL file and the lines behind it.
  unfoldable pub first_decision : Answer → Answer → Answer
  first_decision (decided nomatch) rest = rest
  first_decision (decided status) rest = decided status
  first_decision spent rest = spent

  unfoldable pub check_line : (Bytes → Scheme → Bytes → Answer) → Bytes → Line → Answer → Answer
  unfolding first_decision
  check_line check aclfile skipped rest = rest
  check_line check aclfile malformed rest = decided error
  check_line check aclfile (acl_entry value scheme) rest =
      first_decision (check value scheme aclfile) rest

  unfoldable pub check_lines : (Bytes → Scheme → Bytes → Answer) → Bytes → List Bytes → Answer
  unfolding check_line
  check_lines check aclfile [] = decided nomatch
  check_lines check aclfile (string ∷ strings) =
      check_line check aclfile (parse_line system.bufsiz string) (check_lines check aclfile strings)

  unfoldable pub check_opened :
      (Bytes → Scheme → Bytes → Answer) → Bytes → Option (List Bytes) → Answer
  unfolding check_lines
  check_opened check aclfile none = decided error
  check_opened check aclfile (some strings) = check_lines check aclfile strings

  unfoldable pub acl_check_file_internal : (Bytes → Scheme → Bytes → Answer) → Bytes → Answer
  unfolding check_opened
  acl_check_file_internal check aclfile = check_opened check aclfile (system.lines aclfile)

  -- `scheme->check(client, value, file, lineno)`.
  unfoldable pub scheme_check : (Bytes → Scheme → Bytes → Answer) → Scheme → Bytes → Bytes → Answer
  unfolding acl_check_file_internal acl_check_deny supported handle_include
  scheme_check check Lines.file value file =
      handle_include system value file (acl_check_file_internal check)
  scheme_check check Lines.princ value file = decided (acl_check_princ client value)
  scheme_check check Lines.anyuser value file = decided (acl_check_anyuser client value)
  scheme_check check Lines.deny value file = acl_check_deny (check value Lines.princ file)
  scheme_check check Lines.gput value file =
      supported system.gput (λ gput. acl_check_gput gput client value)
  scheme_check check Lines.localgroup value file =
      supported system.localgroup (λ groups. acl_check_localgroup groups client value)
  scheme_check check Lines.pcre value file =
      supported system.pcre (λ engine. acl_check_regex engine client value)
  scheme_check check Lines.regex value file =
      supported system.regex (λ engine. acl_check_regex engine client value)

  unfoldable pub check_found :
      (Bytes → Scheme → Bytes → Answer) → Option Scheme → Bytes → Bytes → Answer
  unfolding scheme_check
  check_found check none value file = decided error
  check_found check (some scheme) value file = scheme_check check scheme value file

  unfoldable pub check_parts :
      (Bytes → Scheme → Bytes → Answer) → Bytes → Scheme → Bytes → Option (Bytes × Bytes) → Answer
  unfolding check_found find_scheme
  check_parts check entry default file none = scheme_check check default entry file
  check_parts check entry default file (some (prefix, value)) =
      check_found check (find_scheme prefix schemes) value file

  unfoldable pub check_entry : (Bytes → Scheme → Bytes → Answer) → Bytes → Scheme → Bytes → Answer
  unfolding check_parts break_at
  check_entry check entry default file = check_parts check entry default file (break_at b':' entry)

  -- ANYUSER stands for anyuser:auth.
  unfoldable pub expand : Bytes → Bytes
  expand entry = if same entry (codes "ANYUSER") then codes "anyuser:auth" else entry

  -- On fuel for the nesting of entries and files.
  unfoldable pub acl_check : ℕ → Bytes → Scheme → Bytes → Answer
  unfolding check_entry expand
  acl_check zero entry default file = spent
  acl_check (suc fuel) entry default file = check_entry (acl_check fuel) (expand entry) default file

  -- The loop of `server_config_acl_permit`.
  unfoldable pub decide : Answer → Option Bool → Option Bool
  decide (decided success) rest = some true
  decide (decided nomatch) rest = rest
  decide (decided error) rest = some false
  decide (decided deny) rest = some false
  decide spent rest = none

  unfoldable pub permit_any : ℕ → Bytes → List Bytes → Option Bool
  unfolding decide acl_check
  permit_any fuel file [] = some false
  permit_any fuel file (acl ∷ acls) =
      decide (acl_check fuel acl Lines.file file) (permit_any fuel file acls)

  unfoldable pub server_config_acl_permit : ℕ → Rule → Option Bool
  unfolding permit_any
  server_config_acl_permit fuel rule = permit_any fuel rule.file rule.acls
