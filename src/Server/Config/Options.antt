-- ===== src/Server/Config/Options.antt =====
-- The functions of the table of options (server/config.c). A missing result is CONFIG_ERROR, behind
-- which the caller frees the rule.
use remctl.Base.{ℕ, ◌%◌, ◌^◌, Option, none, some, List, [], ◌∷◌, same, if◌then◌else◌, Bytes, codes}
use remctl.Util.Vector.{vector_split}
use remctl.Server.Rule.{Rule, last, position}
use remctl.Server.Acl.Lines.{break_at}
use remctl.Server.Config.{convert_number}

pub record Passwd : Type 0 where
  pub pw_name : Bytes
  pub pw_uid : ℕ
  pub pw_gid : ℕ

-- The users of the system.
pub record Users : Type 0 where
  pub getpwuid : ℕ → Option Passwd
  pub getpwnam : Bytes → Option Passwd

unfoldable pub cons_mask : Option ℕ → Option (List ℕ) → Option (List ℕ)
cons_mask none masks = none
cons_mask (some mask) none = none
cons_mask (some mask) (some masks) = some (mask % 2 ^ 32 ∷ masks)

-- The loop of `option_logmask`: each number is stored as an unsigned int.
unfoldable pub logmasks : List Bytes → Option (List ℕ)
unfolding cons_mask convert_number
logmasks [] = some []
logmasks (string ∷ strings) = cons_mask (convert_number string) (logmasks strings)

unfoldable pub set_logmask : Rule → Option (List ℕ) → Option Rule
set_logmask rule none = none
set_logmask rule (some masks) = some (record rule { logmask = masks })

unfoldable pub option_logmask : Rule → Bytes → Option Rule
unfolding logmasks set_logmask vector_split
option_logmask rule value = set_logmask rule (logmasks (vector_split b',' value))

unfoldable pub set_stdin : Rule → Option ℕ → Option Rule
set_stdin rule none = none
set_stdin rule (some arg) = some (record rule { stdin_arg = position arg })

unfoldable pub option_stdin : Rule → Bytes → Option Rule
unfolding set_stdin convert_number
option_stdin rule value =
    if same value (codes "last")
    then some (record rule { stdin_arg = last })
    else set_stdin rule (convert_number value)

unfoldable pub option_sudo : Rule → Bytes → Option Rule
option_sudo rule value = some (record rule { sudo_user = some value })

unfoldable pub find_user : Users → Bytes → Option ℕ → Option Passwd
find_user users value none = users.getpwnam value
find_user users value (some uid) = users.getpwuid (uid % 2 ^ 32)

unfoldable pub set_user : Rule → Option Passwd → Option Rule
set_user rule none = none
set_user rule (some pw) =
    some (record rule { user = some pw.pw_name; uid = pw.pw_uid; gid = pw.pw_gid })

unfoldable pub option_user : Users → Rule → Bytes → Option Rule
unfolding find_user set_user convert_number
option_user users rule value = set_user rule (find_user users value (convert_number value))

unfoldable pub option_summary : Rule → Bytes → Option Rule
option_summary rule value = some (record rule { summary = some value })

unfoldable pub option_help : Rule → Bytes → Option Rule
option_help rule value = some (record rule { help = some value })

-- The table of the options, by name.
unfoldable pub handle_option : Users → Rule → Bytes → Bytes → Option Rule
unfolding option_help option_logmask option_stdin option_sudo option_summary option_user
handle_option users rule name value =
    if same name (codes "help")
    then option_help rule value
    else if same name (codes "logmask")
    then option_logmask rule value
    else if same name (codes "stdin")
    then option_stdin rule value
    else if same name (codes "sudo")
    then option_sudo rule value
    else if same name (codes "summary")
    then option_summary rule value
    else if same name (codes "user")
    then option_user users rule value
    else none

unfoldable pub split_option : Users → Rule → Option (Bytes × Bytes) → Option Rule
unfolding handle_option
split_option users rule none = none
split_option users rule (some (name, value)) = handle_option users rule name value

unfoldable pub parse_conf_option : Users → Rule → Bytes → Option Rule
unfolding split_option break_at
parse_conf_option users rule option = split_option users rule (break_at b'=' option)
