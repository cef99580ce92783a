-- ===== src/Server/Config/Load/Sound.antt =====
-- What every configuration that is read has, includes among it.
use mathlib.Core.Path.{subst}
use mathlib.Core.List.{append-nil, append_assoc}
use remctl.Base.{
  ℕ, zero, suc, ◌≤◌, ◌<◌, ◌≡◌, refl, sym, ap, ◌∙◌, inl, inr, false, Bool-cases, Option, none, some,
  List, [], ◌∷◌, ◌++◌, length, length-append, ltb, same, Bytes, arith, All, All-append,
}
use remctl.Server.Acl.{Kind, regular, directory}
use remctl.Server.Acl.Lines.{skip_space, is_comment}
use remctl.Server.Acl.Include.{valid_filename}
use remctl.Util.Vector.{vector_split_space}
use remctl.Server.Rule.{Rule}
use remctl.Server.Config.{is_option}
use remctl.Server.Config.Options.{Users}
use remctl.Server.Config.Line.{parse_rule}
use remctl.Server.Config.Rules.{parse_rule_lem}
use remctl.Server.Config.File.{
  Reader, Round, end_of_file, bad_line, out_of_fuel, short_line, line, next_line,
}
use remctl.Server.Config.Load.{
  Config, Load, loaded, failed, spent, Files, ◌then_load◌, make_space, put_rule, Entry, include,
  other, parse_entry, include_all, include_kind, handle_include, load_entry, load_line, load_round,
  load_rounds, start_reading, load_opened, read_conf_file,
}

-- What is loaded has `P`.
abbrev pub Loads : (Config → Type 0) → Load → Type 0
Loads P (loaded c) = P c
Loads P failed = Unit {0}
Loads P spent = Unit {0}

-- A predicate that a rule put in place keeps, is kept by a whole file and its includes.
module _ (files : Files) (P : Config → Type 0)
    (put : (c : Config) (name : Bytes) (lineno : ℕ) (words : List Bytes) (rule : Rule)
      → P c
      → parse_rule files.users name lineno words ≡ some rule
      → P (record (make_space c) { rules = (make_space c).rules ++ rule ∷ [] })) where
  then_load-Loads :
      (load : Load) (next : Config → Load)
      → Loads P load
      → ((c : Config) → P c → Loads P (next c))
      → Loads P (load then_load next)
  then_load-Loads (loaded c) next p h = h c p
  then_load-Loads failed next p h = tt
  then_load-Loads spent next p h = tt

  abbrev Keeps : (Bytes → Config → Load) → Type 0
  Keeps function = (name : Bytes) (c : Config) → P c → Loads P (function name c)

  put_rule-Loads :
      (c : Config) (name : Bytes) (lineno : ℕ) (words : List Bytes) (o : Option Rule)
      → P c
      → parse_rule files.users name lineno words ≡ o
      → Loads P (put_rule (make_space c) o)
  unfolding put_rule
  put_rule-Loads c name lineno words none p e = tt
  put_rule-Loads c name lineno words (some rule) p e = put c name lineno words rule p e

  module _ (function : Bytes → Config → Load) (keeps : Keeps function) where
    include_all-Loads :
        (included : Bytes) (names : List Bytes) (c : Config)
        → P c
        → Loads P (include_all files function included names c)
    unfolding include_all
    include_all-Loads included [] c p = p
    include_all-Loads included (name ∷ names) c p = elim (Bool-cases (valid_filename name)) [
      | inl e ↦ rw e (
          then_load-Loads (function (included ++ 47 ∷ name) c) _ (keeps _ c p)
            (λ c' p'. include_all-Loads included names c' p'))
      | inr e ↦ rw e (include_all-Loads included names c p)
    ]

    include_kind-Loads :
        (included : Bytes) (kind : Option Kind) (c : Config)
        → P c
        → Loads P (include_kind files function included kind c)
    unfolding include_kind
    include_kind-Loads included none c p = tt
    include_kind-Loads included (some regular) c p = keeps included c p
    include_kind-Loads included (some (directory none)) c p = tt
    include_kind-Loads included (some (directory (some names))) c p =
        include_all-Loads included names c p

    load_entry-Loads :
        (name : Bytes) (lineno : ℕ) (c : Config) (entry : Entry)
        → P c
        → Loads P (load_entry files function name lineno c entry)
    unfolding load_entry handle_include
    load_entry-Loads name lineno c (include included) p = elim (Bool-cases (same included name)) [
      | inl e ↦ rw e tt
      | inr e ↦ rw e (include_kind-Loads included (files.stat included) c p)
    ]
    load_entry-Loads name lineno c (other words) p = elim (Bool-cases (ltb (length words) 4)) [
      | inl e ↦ rw e tt
      | inr e ↦ rw e (put_rule-Loads c name lineno words _ p refl)
    ]

    load_line-Loads :
        (name : Bytes) (lineno : ℕ) (buffer : Bytes) (c : Config)
        → P c
        → Loads P (load_line files function name lineno buffer c)
    unfolding load_line
    load_line-Loads name lineno buffer c p = elim (Bool-cases (is_comment (skip_space buffer))) [
      | inl e ↦ rw e p
      | inr e ↦ rw e (load_entry-Loads name lineno c (parse_entry (vector_split_space buffer)) p)
    ]

    load_round-Loads :
        (name : Bytes) (c : Config) (round : Round) (next : Reader → Config → Load)
        → P c
        → ((r : Reader) (c' : Config) → P c' → Loads P (next r c'))
        → Loads P (load_round files function name c round next)
    unfolding load_round
    load_round-Loads name c end_of_file next p h = p
    load_round-Loads name c bad_line next p h = tt
    load_round-Loads name c out_of_fuel next p h = tt
    load_round-Loads name c (short_line r) next p h = h r c p
    load_round-Loads name c (line r) next p h =
        then_load-Loads (load_line files function name r.lineno r.buffer c) (next r)
          (load_line-Loads name r.lineno r.buffer c p) (h r)

    load_rounds-Loads :
        (name : Bytes) (fuel : ℕ) (r : Reader) (c : Config)
        → P c
        → Loads P (load_rounds files function name fuel r c)
    unfolding load_rounds
    load_rounds-Loads name zero r c p = tt
    load_rounds-Loads name (suc fuel) r c p =
        load_round-Loads name c (next_line r) (load_rounds files function name fuel) p
          (λ r' c' p'. load_rounds-Loads name fuel r' c' p')

    load_opened-Loads :
        (name : Bytes) (o : Option Bytes) (c : Config)
        → P c
        → Loads P (load_opened files function name o c)
    unfolding load_opened
    load_opened-Loads name none c p = tt
    load_opened-Loads name (some content) c p =
        load_rounds-Loads name (suc (length content)) (start_reading files content) c p

  pub read_conf_file-Loads : (fuel : ℕ) → Keeps (read_conf_file files fuel)
  unfolding read_conf_file
  read_conf_file-Loads zero name c p = tt
  read_conf_file-Loads (suc fuel) name c p =
      load_opened-Loads (read_conf_file files fuel) (read_conf_file-Loads fuel) name
        (files.content name) c p

-- A rule is what some line gives, and has an ACL at least, which is no option.
pub record IsLoaded (users : Users) (rule : Rule) : Type 0 where
  pub from_line : (words : List Bytes) × (parse_rule users rule.file rule.lineno words ≡ some rule)
  pub has_acl :
      (acl : Bytes) × (rest : List Bytes) × (rule.acls ≡ acl ∷ rest) × (is_option acl ≡ false)

-- What is behind `old`: rules from lines, and no more than there are places for.
pub record IsSound (users : Users) (old : List Rule) (c : Config) : Type 0 where
  pub more : List Rule
  pub keeps : c.rules ≡ old ++ more
  pub all_loaded : All (IsLoaded users) more
  pub fits : length c.rules ≤ c.allocated

parse_rule-IsLoaded :
    (users : Users) (name : Bytes) (lineno : ℕ) (words : List Bytes) (rule : Rule)
    → parse_rule users name lineno words ≡ some rule
    → IsLoaded users rule
parse_rule-IsLoaded users name lineno words rule e =
    let (file, number, (rest, same_words, (options, acl, acls, split, all, stop, same_acls))) =
      parse_rule_lem users name lineno words rule e in
    record {
      from_line = (
        words,
        ap (λ f. parse_rule users f rule.lineno words) file
            ∙ ap (λ n. parse_rule users name n words) number
            ∙ e,
      );
      has_acl = (acl, acls, same_acls, stop);
    }

make_space-fits :
    (c : Config)
    → length c.rules ≤ c.allocated
    → ((make_space c).rules ≡ c.rules) × (length c.rules < (make_space c).allocated)
unfolding make_space
make_space-fits c h = ground arith

put-IsSound :
    (files : Files) (old : List Rule) (c : Config) (name : Bytes) (lineno : ℕ) (words : List Bytes)
    (rule : Rule)
    → IsSound files.users old c
    → parse_rule files.users name lineno words ≡ some rule
    → IsSound files.users old (record (make_space c) { rules = (make_space c).rules ++ rule ∷ [] })
put-IsSound files old c name lineno words rule sound e =
    let (same_rules, room) = make_space-fits c sound.fits in
    let shape : (make_space c).rules ++ rule ∷ [] ≡ old ++ (sound.more ++ rule ∷ []) =
      ap (λ rules. rules ++ rule ∷ []) (same_rules ∙ sound.keeps)
      ∙ append_assoc old sound.more (rule ∷ []) in
    record {
      more = sound.more ++ rule ∷ [];
      keeps = shape;
      all_loaded =
          All-append (IsLoaded files.users) sound.more (rule ∷ []) sound.all_loaded
            (parse_rule-IsLoaded files.users name lineno words rule e, tt);
      fits =
          omega (arith, length-append (make_space c).rules (rule ∷ []), ap length same_rules, room);
    }

-- A file that is read, with all that it includes, leaves the rules that were there in their
-- places; each rule behind them is what the words of a line give, under its file and number, and
-- has an ACL; and there are no more rules than places.
pub read_conf_file-IsSound :
    (files : Files) (fuel : ℕ) (name : Bytes) (c d : Config)
    → length c.rules ≤ c.allocated
    → read_conf_file files fuel name c ≡ loaded d
    → IsSound files.users c.rules d
read_conf_file-IsSound files fuel name c d fits e = subst (Loads (IsSound files.users c.rules)) e (
    read_conf_file-Loads files (IsSound files.users c.rules) (put-IsSound files c.rules) fuel name c
      (record { more = []; keeps = sym (append-nil c.rules); all_loaded = tt; fits = fits }))
