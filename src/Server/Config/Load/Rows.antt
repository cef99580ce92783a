-- ===== src/Server/Config/Load/Rows.antt =====
-- A file of rows is loaded as its rows.
use mathlib.Core.List.{append_assoc}
use remctl.Base.{
  ℕ, suc, ◌+◌, ◌≤◌, ◌<◌, ◌≡◌, refl, ap, ◌∙◌, inl, inr, false, Bool-cases, Option, none, some, List,
  [], ◌∷◌, ◌++◌, length, ltb, le→not_ltb, ◌==◌, Bytes, arith, All, All-append, append-nil,
}
use remctl.Util.Vector.{vector_join}
use remctl.Server.Acl.Lines.{skip_space}
use remctl.Server.Rule.{Rule}
use remctl.Server.Config.Line.{parse_rule}
use remctl.Server.Config.File.Lines.{numbered, physical, logical}
use remctl.Server.Config.File.Gather.{NoNul}
use remctl.Server.Config.Load.{
  Config, Load, loaded, failed, spent, Files, ◌then_load◌, make_space, put_rule, other, parse_entry,
  load_entry, load_line, read_conf_file, server_config_load,
}
use remctl.Server.Config.Load.Logical.{load_lines, read_conf_file-load_lines}
use remctl.Server.Config.Load.Printed.{
  IsPlainWord, IsRow, IsRowOrEmpty, print_row, print, cons_rule, parse_rows, IsTextOctet,
  physical-line, join_text, split_row, fresh-text, fresh-empty,
}

-- The result for the rows, where each rule is put in place.
module _ (files : Files) (name : Bytes) where
  unfoldable put_rows : ℕ → List (List Bytes) → Config → Load
  unfolding put_rule make_space parse_rule
  put_rows n [] c = loaded c
  put_rows n ([] ∷ rows) c = put_rows n rows c
  put_rows n ((word ∷ words) ∷ rows) c =
      put_rule (make_space c) (parse_rule files.users name (n + 1) (word ∷ words))
      then_load put_rows (n + 1) rows

  parse_entry-row : (row : List Bytes) → 4 ≤ length row → parse_entry row ≡ other row
  unfolding parse_entry
  parse_entry-row [] h = absurd (omega arith)
  parse_entry-row (a ∷ []) h = absurd (omega arith)
  parse_entry-row (a ∷ b ∷ []) h = absurd (omega arith)
  parse_entry-row (a ∷ b ∷ c ∷ row) h = refl

  skip_row :
      (row : List Bytes)
      → All IsPlainWord row
      → skip_space (vector_join row (b' ' ∷ [])) ≡ vector_join row (b' ' ∷ [])
  unfolding skip_space vector_join
  skip_row [] h = refl
  skip_row ([] ∷ row) (p, h) = elim p [ ]
  skip_row ((c ∷ word) ∷ row) (((space, _, _), _), h) = rw space refl

  load_line-row :
      (function : Bytes → Config → Load) (n : ℕ) (row : List Bytes) (c : Config)
      → IsRow row
      → load_line files function name n (vector_join row (b' ' ∷ [])) c
        ≡ put_rule (make_space c) (parse_rule files.users name n row)
  unfolding load_line load_entry
  load_line-row function n row c (size, plain, start) =
      let text = vector_join row (b' ' ∷ []) in
      let short : ltb (length row) 4 ≡ false = le→not_ltb (length row) 4 size in
      rw (skip_row row plain, start, split_row row plain, parse_entry-row row size, short) refl

  row_some : (row : List Bytes) → IsRow row → 0 < length (vector_join row (b' ' ∷ []))
  unfolding vector_join
  row_some [] (size, _, _) = absurd (omega (arith, size))
  row_some ([] ∷ row) (size, (p, _), _) = elim p [ ]
  row_some ((c ∷ word) ∷ row) h = omega arith

  row_lines :
      (row : List Bytes) (rows : List (List Bytes)) (n : ℕ)
      → IsRow row
      → logical (physical (print (row ∷ rows))) none n
        ≡ numbered
            (n + 1)
            (vector_join row (b' ' ∷ []))
            (logical (physical (print rows)) none (n + 1))
  unfolding print print_row logical
  row_lines row rows n h =
      let text = vector_join row (b' ' ∷ []) in
      let all = join_text row h.1 in
      rw
        (
          append_assoc text (10 ∷ []) (print rows),
          physical-line text (print rows) all,
          fresh-text (logical (physical (print rows))) text n (row_some row h) all,
        )
        refl

  empty_lines :
      (rows : List (List Bytes)) (n : ℕ)
      → logical (physical (print ([] ∷ rows))) none n ≡ logical (physical (print rows)) none n
  unfolding print vector_join physical logical
  empty_lines rows n = fresh-empty (logical (physical (print rows))) n

  then_load-put :
      (c : Config) (rule : Option Rule) (next next' : Config → Load)
      → ((c' : Config) → next c' ≡ next' c')
      → (put_rule c rule then_load next) ≡ (put_rule c rule then_load next')
  unfolding put_rule
  then_load-put c none next next' h = refl
  then_load-put c (some rule) next next' h = h _

  load_lines-put_rows :
      (function : Bytes → Config → Load) (n : ℕ) (rows : List (List Bytes)) (c : Config)
      → All IsRowOrEmpty rows
      → load_lines files function name (logical (physical (print rows)) none n) c
        ≡ put_rows n rows c
  unfolding load_lines put_rows
  load_lines-put_rows function n [] c h = unfold print physical logical in refl
  load_lines-put_rows function n ([] ∷ rows) c (p, h) =
      rw (empty_lines rows n) (load_lines-put_rows function n rows c h)
  load_lines-put_rows function n ((word ∷ words) ∷ rows) c (p, h) =
      rw (row_lines (word ∷ words) rows n p, load_line-row function (n + 1) (word ∷ words) c p)
        (then_load-put (make_space c) (parse_rule files.users name (n + 1) (word ∷ words)) _ _
          (λ c'. load_lines-put_rows function (n + 1) rows c' h))

-- The rules of a configuration that was loaded.
unfoldable pub rules_of : Load → Option (List Rule)
rules_of (loaded c) = some c.rules
rules_of failed = none
rules_of spent = none

unfoldable after_rules : List Rule → Option (List Rule) → Option (List Rule)
after_rules rules none = none
after_rules rules (some more) = some (rules ++ more)

rules-make_space : (c : Config) → (make_space c).rules ≡ c.rules
unfolding make_space
rules-make_space c = elim (Bool-cases (length c.rules == c.allocated)) [
  | inl e ↦ rw e refl
  | inr e ↦ rw e refl
]

after_cons :
    (rules : List Rule) (rule : Rule) (more : Option (List Rule))
    → after_rules (rules ++ rule ∷ []) more ≡ after_rules rules (cons_rule (some rule) more)
unfolding after_rules cons_rule
after_cons rules rule none = refl
after_cons rules rule (some more) = ap some (append_assoc rules (rule ∷ []) more)

put-after_rules :
    (c : Config) (o : Option Rule) (more : Option (List Rule)) (next : Config → Load)
    → ((c' : Config) → rules_of (next c') ≡ after_rules c'.rules more)
    → rules_of (put_rule c o then_load next) ≡ after_rules c.rules (cons_rule o more)
unfolding put_rule
put-after_rules c none more next h = unfold rules_of after_rules cons_rule in refl
put-after_rules c (some rule) more next h = h _ ∙ after_cons c.rules rule more

put_rows-parse_rows :
    (files : Files) (name : Bytes) (n : ℕ) (rows : List (List Bytes)) (c : Config)
    → rules_of (put_rows files name n rows c)
      ≡ after_rules c.rules (parse_rows files.users name n rows)
unfolding put_rows parse_rows
put_rows-parse_rows files name n [] c = unfold rules_of after_rules in rw append-nil refl
put_rows-parse_rows files name n ([] ∷ rows) c = put_rows-parse_rows files name n rows c
put_rows-parse_rows files name n ((word ∷ words) ∷ rows) c =
    put-after_rules (make_space c) (parse_rule files.users name (n + 1) (word ∷ words))
      (parse_rows files.users name (n + 1) rows) _
      (λ c'. put_rows-parse_rows files name (n + 1) rows c')
    ∙ rw (rules-make_space c) refl

NoNul-append : (x y : Bytes) → NoNul x → NoNul y → NoNul (x ++ y)
NoNul-append x y h h' = All-append (λ c. (c == 0) ≡ false) x y h h'

NoNul-text : (text : Bytes) → All IsTextOctet text → NoNul text
NoNul-text [] h = tt
NoNul-text (c ∷ text) ((_, e, _), h) = (e, NoNul-text text h)

NoNul-print : (rows : List (List Bytes)) → All IsRowOrEmpty rows → NoNul (print rows)
unfolding print print_row vector_join
NoNul-print [] h = tt
NoNul-print ([] ∷ rows) (p, h) = (refl, NoNul-print rows h)
NoNul-print ((word ∷ words) ∷ rows) ((size, plain, start), h) =
    NoNul-append (vector_join (word ∷ words) (b' ' ∷ []) ++ 10 ∷ []) (print rows)
      (NoNul-append (vector_join (word ∷ words) (b' ' ∷ [])) (10 ∷ [])
        (NoNul-text (vector_join (word ∷ words) (b' ' ∷ [])) (join_text (word ∷ words) plain))
        (refl, tt))
      (NoNul-print rows h)

after_none : (o : Option (List Rule)) → after_rules [] o ≡ o
unfolding after_rules
after_none none = refl
after_none (some rules) = refl

-- A configuration file of rows, each of at least four words on a line of its own, or an empty
-- line, gives exactly the rules of the rows, in order, and is refused exactly if a row is. The
-- number of a rule counts the rows up to its own, and not the empty lines.
pub server_config_load-print :
    (files : Files) (fuel : ℕ) (name : Bytes) (rows : List (List Bytes))
    → files.content name ≡ some (print rows)
    → All IsRowOrEmpty rows
    → rules_of (server_config_load files (suc fuel) name) ≡ parse_rows files.users name 0 rows
unfolding server_config_load
server_config_load-print files fuel name rows e h =
    rw
      (
        read_conf_file-load_lines files fuel name (print rows) _ e (NoNul-print rows h),
        load_lines-put_rows files name (read_conf_file files fuel) 0 rows
            (record { rules = []; allocated = 0 }) h,
        put_rows-parse_rows files name 0 rows (record { rules = []; allocated = 0 }),
      )
      (after_none (parse_rows files.users name 0 rows))
