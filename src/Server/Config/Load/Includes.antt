-- ===== src/Server/Config/Load/Includes.antt =====
-- Configuration files that include others, and the theorems on includes at them.
use mathlib.Core.Path.{subst}
use remctl.Base.{
  ℕ, ◌≡◌, ◌≢◌, ◌<◌, refl, sym, ◌⊎◌, inl, inr, Bool-cases, none, some, [], ◌∷◌, ◌++◌, same, Bytes,
  codes, arith, if◌then◌else◌,
}
use remctl.Util.Vector.{vector_split_space}
use remctl.Server.Acl.Lines.{skip_space, is_comment, isspace}
use remctl.Server.Config.{is_option}
use remctl.Server.Config.File.Lines.{physical, logical, no_line}
use remctl.Server.Config.File.Gather.{NoNul}
use remctl.Server.Config.Load.{Files, Config, loaded, spent, parse_entry, read_conf_file}
use remctl.Server.Config.Load.Sound.{IsSound, read_conf_file-IsSound}
use remctl.Server.Config.Load.Nesting.{Included, IsRanked, read_conf_file_ends}
use remctl.Server.Config.Load.Cycle.{StartsWith, read_conf_file_cycle}
use remctl.Server.Config.Load.Tests.{test_files, test_files_content, other_content, test_rules}

abbrev empty_config : Config
empty_config = record { rules = []; allocated = 0 }

test_read :
    read_conf_file test_files 2 (codes "conf") empty_config
    ≡ loaded (record { rules = test_rules; allocated = 4 })
unfolding read_conf_file same is_option test_files_content
test_read = refl

read_conf_file-IsSound_example :
    IsSound test_files.users [] (record { rules = test_rules; allocated = 4 })
read_conf_file-IsSound_example =
    read_conf_file-IsSound test_files 2 (codes "conf") empty_config
      (record { rules = test_rules; allocated = 4 }) (omega arith) test_read

-- A file that includes another one.
abbrev include_other : Bytes
include_other = codes "include other" ++ 10 ∷ []

abbrev nested_files : Files
nested_files = record test_files {
  content = λ name. if same name (codes "conf") then some include_other else some other_content;
}

abbrev test_rank : Bytes → ℕ
test_rank name = if same name (codes "conf") then 1 else 0

abbrev RankedBelow : ℕ → Bytes → Type 0
RankedBelow n content =
    NoNul content
    × Included nested_files (λ included. test_rank included < n) (logical (physical content) none 0)

include_other-Ranked : RankedBelow 1 include_other
unfolding same logical physical is_comment skip_space vector_split_space parse_entry isspace
include_other-Ranked = (ground arith, (λ e. omega arith, tt))

other_content-Ranked : RankedBelow 0 other_content
unfolding same logical physical is_comment skip_space vector_split_space parse_entry isspace
other_content-Ranked = (ground arith, (λ e. tt, tt))

nested-IsRanked : IsRanked nested_files test_rank
nested-IsRanked name content e = elim (Bool-cases (same name (codes "conf"))) [
  | inl h ↦
      (let same_content : some include_other ≡ some content = rw h at e in
        rw h (subst (RankedBelow 1) (cc same_content) include_other-Ranked))
  | inr h ↦
      (let same_content : some other_content ≡ some content = rw h at e in
        rw h (subst (RankedBelow 0) (cc same_content) other_content-Ranked))
]

read_conf_file_ends_example : read_conf_file nested_files 2 (codes "conf") empty_config ≢ spent
read_conf_file_ends_example =
    read_conf_file_ends nested_files test_rank 2 (codes "conf") empty_config nested-IsRanked
      (unfold same in omega arith)

-- Two files that include each other.
abbrev cyclic_files : Files
cyclic_files = record test_files {
  content = λ name.
      if same name (codes "a")
      then some (codes "include b" ++ 10 ∷ [])
      else some (codes "include a" ++ 10 ∷ []);
}

abbrev OneOfBoth : Bytes → Type 0
OneOfBoth name = (name ≡ codes "a") ⊎ (name ≡ codes "b")

starts_a : StartsWith cyclic_files (codes "a") (codes "b")
unfolding same logical physical is_comment skip_space vector_split_space parse_entry isspace
starts_a = record {
  content = codes "include b" ++ 10 ∷ [];
  lineno = 1;
  string = codes "include b";
  others = no_line;
  is_there = refl;
  clean = ground arith;
  first = refl;
  no_comment = refl;
  includes = refl;
  differs = refl;
  is_file = refl;
}

starts_b : StartsWith cyclic_files (codes "b") (codes "a")
unfolding same logical physical is_comment skip_space vector_split_space parse_entry isspace
starts_b = record {
  content = codes "include a" ++ 10 ∷ [];
  lineno = 1;
  string = codes "include a";
  others = no_line;
  is_there = refl;
  clean = ground arith;
  first = refl;
  no_comment = refl;
  includes = refl;
  differs = refl;
  is_file = refl;
}

both_cyclic :
    (file : Bytes)
    → OneOfBoth file
    → (next : Bytes) × OneOfBoth next × StartsWith cyclic_files file next
both_cyclic file (inl e) =
    (codes "b", inr refl, subst (λ f. StartsWith cyclic_files f (codes "b")) (sym e) starts_a)
both_cyclic file (inr e) =
    (codes "a", inl refl, subst (λ f. StartsWith cyclic_files f (codes "a")) (sym e) starts_b)

read_conf_file_cycle_example : read_conf_file cyclic_files 3 (codes "a") empty_config ≡ spent
read_conf_file_cycle_example =
    read_conf_file_cycle cyclic_files OneOfBoth 3 (codes "a") empty_config both_cyclic (inl refl)
