-- ===== src/Server/Config/Load/Nesting.antt =====
-- Includes that have no cycles are read with fuel for the nesting, and a cycle is read without
-- end.
use remctl.Base.{
  ℕ, zero, suc, ◌<◌, ◌≡◌, ◌≢◌, refl, inl, inr, true, false, Bool-cases, Option, none, some,
  Option-cases, List, [], ◌∷◌, ◌++◌, length, ltb, same, Bytes, arith, All,
}
use remctl.Server.Acl.{Kind, regular, directory}
use remctl.Server.Acl.Lines.{skip_space, is_comment}
use remctl.Server.Acl.Include.{valid_filename}
use remctl.Util.Vector.{vector_split_space}
use remctl.Server.Rule.{Rule}
use remctl.Server.Config.File.Lines.{Lines, no_line, broken_off, numbered, physical, logical}
use remctl.Server.Config.File.Gather.{NoNul}
use remctl.Server.Config.Load.{
  Config, Load, loaded, failed, spent, Files, ◌then_load◌, make_space, put_rule, Entry, include,
  other, parse_entry, include_all, include_kind, handle_include, load_entry, load_line, load_opened,
  read_conf_file,
}
use remctl.Server.Config.Load.Logical.{load_lines, read_conf_file-load_lines}

module _ (files : Files) (Q : Bytes → Type 0) where
  -- The files that an include reads have `Q`.
  abbrev pub IncludedKind : Bytes → Option Kind → Type 0
  IncludedKind included none = Unit
  IncludedKind included (some regular) = Q included
  IncludedKind included (some (directory none)) = Unit
  IncludedKind included (some (directory (some names))) =
      All (λ name. valid_filename name ≡ true → Q (included ++ b'/' ∷ name)) names

  abbrev pub IncludedEntry : Entry → Type 0
  IncludedEntry (include included) = IncludedKind included (files.stat included)
  IncludedEntry (other words) = Unit

  -- The files that the includes among the lines read have `Q`.
  abbrev pub Included : Lines → Type 0
  Included no_line = Unit
  Included broken_off = Unit
  Included (numbered lineno string lines) =
      (is_comment (skip_space string) ≡ false
        → IncludedEntry (parse_entry (vector_split_space string)))
      × Included lines

module _ (files : Files) where
  then_load_not_spent :
      (load : Load) (next : Config → Load)
      → load ≢ spent
      → ((c : Config) → next c ≢ spent)
      → (load then_load next) ≢ spent
  then_load_not_spent (loaded c) next h h' = h' c
  then_load_not_spent failed next h h' = λ e. cc
  then_load_not_spent spent next h h' = absurd (h refl)

  put_rule_not_spent : (c : Config) (o : Option Rule) → put_rule c o ≢ spent
  unfolding put_rule
  put_rule_not_spent c none = λ e. cc
  put_rule_not_spent c (some rule) = λ e. cc

  module _ (function : Bytes → Config → Load) where
    abbrev Ends : Bytes → Type 0
    Ends name = (c : Config) → function name c ≢ spent

    include_all-Ends :
        (included : Bytes) (names : List Bytes) (c : Config)
        → All (λ name. valid_filename name ≡ true → Ends (included ++ 47 ∷ name)) names
        → include_all files function included names c ≢ spent
    unfolding include_all
    include_all-Ends included [] c h = λ e. cc
    include_all-Ends included (name ∷ names) c (p, h) = elim (Bool-cases (valid_filename name)) [
      | inl e ↦ rw e (
          then_load_not_spent (function (included ++ 47 ∷ name) c) _ (p e c)
            (λ c'. include_all-Ends included names c' h))
      | inr e ↦ rw e (include_all-Ends included names c h)
    ]

    include_kind-Ends :
        (included : Bytes) (kind : Option Kind) (c : Config)
        → IncludedKind files Ends included kind
        → include_kind files function included kind c ≢ spent
    unfolding include_kind
    include_kind-Ends included none c h = λ e. cc
    include_kind-Ends included (some regular) c h = h c
    include_kind-Ends included (some (directory none)) c h = λ e. cc
    include_kind-Ends included (some (directory (some names))) c h =
        include_all-Ends included names c h

    load_entry-Ends :
        (name : Bytes) (lineno : ℕ) (c : Config) (entry : Entry)
        → IncludedEntry files Ends entry
        → load_entry files function name lineno c entry ≢ spent
    unfolding load_entry handle_include
    load_entry-Ends name lineno c (include included) h = elim (Bool-cases (same included name)) [
      | inl e ↦ rw e (λ e'. cc)
      | inr e ↦ rw e (include_kind-Ends included (files.stat included) c h)
    ]
    load_entry-Ends name lineno c (other words) h = elim (Bool-cases (ltb (length words) 4)) [
      | inl e ↦ rw e (λ e'. cc)
      | inr e ↦ rw e (put_rule_not_spent (make_space c) _)
    ]

    load_lines-Ends :
        (name : Bytes) (lines : Lines) (c : Config)
        → Included files Ends lines
        → load_lines files function name lines c ≢ spent
    unfolding load_lines load_line
    load_lines-Ends name no_line c h = λ e. cc
    load_lines-Ends name broken_off c h = λ e. cc
    load_lines-Ends name (numbered lineno string lines) c (p, h) =
        then_load_not_spent _ _
          (elim (Bool-cases (is_comment (skip_space string))) [
            | inl e ↦ rw e (λ e'. cc)
            | inr e ↦ rw e (load_entry-Ends name lineno c _ (p e))
          ])
          (λ c'. load_lines-Ends name lines c' h)

-- A predicate on the files that are included, and a weaker one.
module _ (files : Files) (Q R : Bytes → Type 0) (weaken : (name : Bytes) → Q name → R name) where
  All-weaken :
      (included : Bytes) (names : List Bytes)
      → All (λ name. valid_filename name ≡ true → Q (included ++ 47 ∷ name)) names
      → All (λ name. valid_filename name ≡ true → R (included ++ 47 ∷ name)) names
  All-weaken included [] h = tt
  All-weaken included (name ∷ names) (p, h) =
      (λ e. weaken (included ++ 47 ∷ name) (p e), All-weaken included names h)

  kind-weaken :
      (included : Bytes) (kind : Option Kind)
      → IncludedKind files Q included kind
      → IncludedKind files R included kind
  kind-weaken included none h = tt
  kind-weaken included (some regular) h = weaken included h
  kind-weaken included (some (directory none)) h = tt
  kind-weaken included (some (directory (some names))) h = All-weaken included names h

  entry-weaken : (entry : Entry) → IncludedEntry files Q entry → IncludedEntry files R entry
  entry-weaken (include included) h = kind-weaken included (files.stat included) h
  entry-weaken (other words) h = tt

  Included-weaken : (lines : Lines) → Included files Q lines → Included files R lines
  Included-weaken no_line h = tt
  Included-weaken broken_off h = tt
  Included-weaken (numbered lineno string lines) (p, h) =
      (λ e. entry-weaken (parse_entry (vector_split_space string)) (p e), Included-weaken lines h)

-- The rank of an included file is below that of the file that includes it, and no file has a nul.
abbrev pub IsRanked : Files → (Bytes → ℕ) → Type 0
IsRanked files rank =
    (name content : Bytes)
    → files.content name ≡ some content
    → NoNul content
      × Included files (λ included. rank included < rank name) (logical (physical content) none 0)

missing :
    (files : Files) (fuel : ℕ) (name : Bytes) (c : Config)
    → files.content name ≡ none
    → read_conf_file files (suc fuel) name c ≡ failed
unfolding read_conf_file load_opened
missing files fuel name c e = rw e refl

-- Where every include leads to files of a lower rank, so that there are no cycles, fuel above the
-- rank of the file is enough to read it.
pub read_conf_file_ends :
    (files : Files) (rank : Bytes → ℕ) (fuel : ℕ) (name : Bytes) (c : Config)
    → IsRanked files rank
    → rank name < fuel
    → read_conf_file files fuel name c ≢ spent
read_conf_file_ends files rank zero name c ranked h = absurd (omega arith)
read_conf_file_ends files rank (suc fuel) name c ranked h =
    elim (Option-cases (files.content name)) [
      | inl e ↦ rw (missing files fuel name c e) (λ e'. cc)
      | inr (content, e) ↦
          (let (clean, below) = ranked name content e in
            rw (read_conf_file-load_lines files fuel name content c e clean) (
              load_lines-Ends files (read_conf_file files fuel) name
                (logical (physical content) none 0) c
                (Included-weaken files (λ included. rank included < rank name)
                  (λ included. (c' : Config) → read_conf_file files fuel included c' ≢ spent)
                  (λ included less c'.
                    read_conf_file_ends files rank fuel included c' ranked (omega arith))
                  (logical (physical content) none 0) below)))
    ]
