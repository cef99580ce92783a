-- ===== src/Server/Config/Load/Cycle.antt =====
-- Configuration files that include each other.
use remctl.Base.{ℕ, zero, suc, ◌≡◌, refl, ◌∙◌, false, none, some, same, Bytes}
use remctl.Server.Acl.{regular}
use remctl.Server.Acl.Lines.{skip_space, is_comment}
use remctl.Util.Vector.{vector_split_space}
use remctl.Server.Config.File.Lines.{Lines, numbered, physical, logical}
use remctl.Server.Config.File.Gather.{NoNul}
use remctl.Server.Config.Load.{
  Config, Load, spent, Files, include, parse_entry, include_kind, handle_include, load_entry,
  load_line, read_conf_file,
}
use remctl.Server.Config.Load.Logical.{load_lines, read_conf_file-load_lines}

-- The first line of the file `name` includes the other file `next`.
pub record StartsWith (files : Files) (name next : Bytes) : Type 0 where
  pub content : Bytes
  pub lineno : ℕ
  pub string : Bytes
  pub others : Lines
  pub is_there : files.content name ≡ some content
  pub clean : NoNul content
  pub first : logical (physical content) none 0 ≡ numbered lineno string others
  pub no_comment : is_comment (skip_space string) ≡ false
  pub includes : parse_entry (vector_split_space string) ≡ include next
  pub differs : same next name ≡ false
  pub is_file : files.stat next ≡ some regular

module _ (files : Files) where
  load_lines-first :
      (function : Bytes → Config → Load) (name next : Bytes) (c : Config)
      (s : StartsWith files name next)
      → function next c ≡ spent
      → load_lines files function name (logical (physical s.content) none 0) c ≡ spent
  unfolding load_lines load_line load_entry handle_include include_kind
  load_lines-first function name next c s e =
      rw (s.first, s.no_comment, s.includes, s.differs, s.is_file, e) refl

  -- Where each of some files starts with an include of another of them, the test for a file that
  -- is included recursively never ends the reading of one: no fuel is enough.
  pub read_conf_file_cycle :
      (P : Bytes → Type 0) (fuel : ℕ) (name : Bytes) (c : Config)
      → ((file : Bytes) → P file → (next : Bytes) × P next × StartsWith files file next)
      → P name
      → read_conf_file files fuel name c ≡ spent
  read_conf_file_cycle P zero name c h p = unfold read_conf_file in refl
  read_conf_file_cycle P (suc fuel) name c h p =
      let (next, p', s) = h name p in
      read_conf_file-load_lines files fuel name s.content c s.is_there s.clean
      ∙ load_lines-first (read_conf_file files fuel) name next c s
          (read_conf_file_cycle P fuel next c h p')
