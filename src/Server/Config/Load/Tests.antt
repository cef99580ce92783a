-- ===== src/Server/Config/Load/Tests.antt =====
-- Configuration files, and the theorems on their reading at them.
use remctl.Base.{
  suc, length, ◌≡◌, refl, Option, none, some, List, [], ◌∷◌, ◌++◌, same, Bytes, codes, All, arith,
  if◌then◌else◌,
}
use remctl.Server.Acl.{regular}
use remctl.Server.Rule.{Rule}
use remctl.Server.Config.{is_option}
use remctl.Server.Config.Line.{new_rule}
use remctl.Server.Acl.Lines.{isspace, is_comment}
use remctl.Util.Vector.{vector_join}
use remctl.Server.Config.File.Lines.{physical, logical}
use remctl.Server.Config.Load.Logical.{load_lines}
use remctl.Server.Config.Load.Fits.{RoundsFit, read_conf_file-RoundsFit}
use remctl.Server.Config.Load.Printed.{print, parse_rows, IsRowOrEmpty}
use remctl.Server.Config.Load.Rows.{rules_of, server_config_load-print}
use remctl.Server.Config.Load.{Files, loaded, start_reading, read_conf_file, server_config_load}

abbrev test_content : Bytes
test_content =
    codes "# rules"
    ++ 10
      ∷ 10
      ∷ (codes "a ALL "
          ++ 92 ∷ 10 ∷ codes "  /bin/run anyuser:auth"
          ++ 10 ∷ codes "include other"
          ++ 10 ∷ [])

abbrev pub other_content : Bytes
other_content = codes "b ALL /bin/b acl" ++ 10 ∷ []

unfoldable pub test_files_content : Bytes → Option Bytes
test_files_content name =
    if same name (codes "conf")
    then some test_content
    else if same name (codes "other")
    then some other_content
    else none

abbrev pub test_files : Files
test_files = record {
  content = test_files_content;
  stat = λ name. some regular;
  users = record { getpwuid = λ uid. none; getpwnam = λ name. none };
}

abbrev rule_a : Rule
rule_a = record (new_rule (codes "conf") 3 (codes "a") (codes "ALL") (codes "/bin/run")) {
  acls = codes "anyuser:auth" ∷ [];
}

abbrev rule_b : Rule
rule_b = record (new_rule (codes "other") 1 (codes "b") (codes "ALL") (codes "/bin/b")) {
  acls = codes "acl" ∷ [];
}

abbrev pub test_rules : List Rule
test_rules = rule_a ∷ rule_b ∷ []

test_load :
    server_config_load test_files 2 (codes "conf")
    ≡ loaded (record { rules = test_rules; allocated = 4 })
unfolding server_config_load same test_files_content is_option
test_load = refl

-- A file that is printed, with an empty line.
abbrev test_rows : List (List Bytes)
test_rows =
    (codes "a" ∷ codes "ALL" ∷ codes "/bin/run" ∷ codes "anyuser:auth" ∷ [])
    ∷ []
    ∷ (codes "b" ∷ codes "ALL" ∷ codes "/bin/b" ∷ codes "stdin=last" ∷ codes "acl" ∷ [])
    ∷ []

abbrev printed_files : Files
printed_files = record test_files { content = λ name. some (print test_rows) }

test_rows-IsRow : All IsRowOrEmpty test_rows
unfolding isspace is_comment vector_join
test_rows-IsRow = ground arith

server_config_load-print_example :
    rules_of (server_config_load printed_files 1 (codes "conf"))
    ≡ parse_rows test_files.users (codes "conf") 0 test_rows
server_config_load-print_example =
    server_config_load-print printed_files 0 (codes "conf") test_rows refl test_rows-IsRow

read_conf_file-RoundsFit_example :
    RoundsFit (suc (length test_content)) (start_reading test_files test_content)
    × (read_conf_file test_files 2 (codes "conf") (record { rules = []; allocated = 0 })
        ≡ load_lines test_files
            (read_conf_file test_files 1)
            (codes "conf")
            (logical (physical test_content) none 0)
            (record { rules = []; allocated = 0 }))
read_conf_file-RoundsFit_example =
    read_conf_file-RoundsFit test_files 1 (codes "conf") test_content
      (record { rules = []; allocated = 0 }) (unfold test_files_content same in refl) (ground arith)
      (omega arith)
