-- ===== src/Server/Config/Load.antt =====
-- `read_conf_file` behind the reading of its lines, with `handle_include` for configuration files,
-- and `server_config_load` of server/config.c.
pub mod Logical
pub mod Fits
pub mod Printed
pub mod Rows
pub mod Sound
pub mod Nesting
pub mod Cycle
pub mod Tests
pub mod Includes
use remctl.Base.{
  ℕ, zero, suc, ◌+◌, ◌*◌, not, Option, none, some, List, [], ◌∷◌, ◌++◌, length, ltb, same, ◌==◌,
  if◌then◌else◌, Bytes, codes,
}
use remctl.Util.Vector.{vector_split_space}
use remctl.Server.Rule.{Rule}
use remctl.Server.Acl.{Kind, regular, directory}
use remctl.Server.Acl.Include.{valid_filename}
use remctl.Server.Acl.Lines.{skip_space, is_comment}
use remctl.Server.Config.Options.{Users}
use remctl.Server.Config.Line.{parse_rule}
use remctl.Server.Config.File.{
  Reader, Round, end_of_file, bad_line, out_of_fuel, short_line, line, next_line,
}

-- `struct config`: the rules, `count` of them, and the places for them.
pub record Config : Type 0 where
  pub rules : List Rule
  pub allocated : ℕ

-- What reading a file leaves: a configuration, CONFIG_ERROR, behind which the caller frees it, or
-- no fuel left.
pub data Load : Type 0 where
  loaded : Config → Load
  failed spent : Load

-- What `fopen`, `stat` and the lookup of users answer.
pub record Files : Type 0 where
  pub content : Bytes → Option Bytes
  pub stat : Bytes → Option Kind
  pub users : Users

-- What follows where a file was read.
infix 31 ◌then_load◌
abbrev pub ◌then_load◌ : Load → (Config → Load) → Load
loaded c then_load next = next c
failed then_load next = failed
spent then_load next = spent

unfoldable pub make_space : Config → Config
make_space c =
    if length c.rules == c.allocated
    then record c { allocated = if ltb c.allocated 4 then 4 else c.allocated * 2 }
    else c

-- A line that is an error, or the rule put in place.
unfoldable pub put_rule : Config → Option Rule → Load
put_rule c none = failed
put_rule c (some rule) = loaded (record c { rules = c.rules ++ rule ∷ [] })

-- What the words of a line ask for.
pub data Entry : Type 0 where
  include : Bytes → Entry
  other : List Bytes → Entry

unfoldable pub parse_entry : List Bytes → Entry
parse_entry (word ∷ name ∷ []) =
    if same word (codes "include") then include name else other (word ∷ name ∷ [])
parse_entry words = other words

module _ (files : Files) where
  -- The loop over the names of a directory; `function` reads one file.
  unfoldable pub include_all : (Bytes → Config → Load) → Bytes → List Bytes → Config → Load
  unfolding valid_filename
  include_all function included [] c = loaded c
  include_all function included (name ∷ names) c =
      if not (valid_filename name)
      then include_all function included names c
      else function (included ++ b'/' ∷ name) c then_load include_all function included names

  unfoldable pub include_kind : (Bytes → Config → Load) → Bytes → Option Kind → Config → Load
  unfolding include_all
  include_kind function included none c = failed
  include_kind function included (some regular) c = function included c
  include_kind function included (some (directory none)) c = failed
  include_kind function included (some (directory (some names))) c =
      include_all function included names c

  unfoldable pub handle_include : (Bytes → Config → Load) → Bytes → Bytes → Config → Load
  unfolding include_kind
  handle_include function included file c =
      if same included file then failed else include_kind function included (files.stat included) c

  unfoldable pub load_entry : (Bytes → Config → Load) → Bytes → ℕ → Config → Entry → Load
  unfolding handle_include make_space put_rule parse_rule
  load_entry function name lineno c (include included) = handle_include function included name c
  load_entry function name lineno c (other words) =
      if ltb (length words) 4
      then failed
      else put_rule (make_space c) (parse_rule files.users name lineno words)

  -- One line of the file, without its newline.
  unfoldable pub load_line : (Bytes → Config → Load) → Bytes → ℕ → Bytes → Config → Load
  unfolding load_entry parse_entry skip_space is_comment vector_split_space
  load_line function name lineno buffer c =
      if is_comment (skip_space buffer)
      then loaded c
      else load_entry function name lineno c (parse_entry (vector_split_space buffer))

  -- What a round of the outer loop does with what was read, and the rounds behind it.
  unfoldable pub load_round :
      (Bytes → Config → Load) → Bytes → Config → Round → (Reader → Config → Load) → Load
  unfolding load_line
  load_round function name c end_of_file next = loaded c
  load_round function name c bad_line next = failed
  load_round function name c out_of_fuel next = spent
  load_round function name c (short_line r) next = next r c
  load_round function name c (line r) next =
      load_line function name r.lineno r.buffer c then_load next r

  -- The outer loop: each round reads at least one octet.
  unfoldable pub load_rounds : (Bytes → Config → Load) → Bytes → ℕ → Reader → Config → Load
  unfolding load_round next_line
  load_rounds function name zero r c = spent
  load_rounds function name (suc fuel) r c =
      load_round function name c (next_line r) (load_rounds function name fuel)

  abbrev pub start_reading : Bytes → Reader
  start_reading content = record { bufsize = 1024; buffer = []; lineno = 0; unread = content }

  unfoldable pub load_opened : (Bytes → Config → Load) → Bytes → Option Bytes → Config → Load
  unfolding load_rounds
  load_opened function name none c = failed
  load_opened function name (some content) c =
      load_rounds function name (suc (length content)) (start_reading content) c

  -- On fuel for the nesting of files.
  unfoldable pub read_conf_file : ℕ → Bytes → Config → Load
  unfolding load_opened
  read_conf_file zero name c = spent
  read_conf_file (suc fuel) name c = load_opened (read_conf_file fuel) name (files.content name) c

  unfoldable pub server_config_load : ℕ → Bytes → Load
  unfolding read_conf_file
  server_config_load fuel name = read_conf_file fuel name (record { rules = []; allocated = 0 })
