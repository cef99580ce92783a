-- ===== src/Server/Config/Rules.antt =====
-- What a rule has from its configuration line.
use remctl.Base.{
  ℕ, ◌≡◌, refl, sym, ap, ◌∙◌, inl, inr, Bool, true, false, Bool-cases, Option, none, some, List, [],
  ◌∷◌, ◌++◌, All, same, if◌then◌else◌, Bytes, codes,
}
use remctl.Server.Rule.{Rule}
use remctl.Server.Acl.Lines.{break_at}
use remctl.Server.Config.{is_option}
use remctl.Server.Config.Options.{
  Passwd, Users, set_logmask, option_logmask, set_stdin, option_stdin, option_sudo, set_user,
  option_user, option_summary, option_help, handle_option, split_option, parse_conf_option,
}
use remctl.Server.Config.Line.{new_rule, with_option, parse_words, parse_rule}

-- The words of the line that no option changes.
abbrev pub Keeps : Rule → Rule → Type 0
Keeps r s =
    (s.file ≡ r.file)
    × (s.lineno ≡ r.lineno)
    × (s.command ≡ r.command)
    × (s.subcommand ≡ r.subcommand)
    × (s.program ≡ r.program)

abbrev KeepsIn : Rule → Option Rule → Type 0
KeepsIn r none = Unit {0}
KeepsIn r (some s) = Keeps r s

set_logmask-Keeps : (r : Rule) (masks : Option (List ℕ)) → KeepsIn r (set_logmask r masks)
unfolding set_logmask
set_logmask-Keeps r none = tt
set_logmask-Keeps r (some masks) = (refl, refl, refl, refl, refl)

set_stdin-Keeps : (r : Rule) (arg : Option ℕ) → KeepsIn r (set_stdin r arg)
unfolding set_stdin
set_stdin-Keeps r none = tt
set_stdin-Keeps r (some arg) = (refl, refl, refl, refl, refl)

set_user-Keeps : (r : Rule) (pw : Option Passwd) → KeepsIn r (set_user r pw)
unfolding set_user
set_user-Keeps r none = tt
set_user-Keeps r (some pw) = (refl, refl, refl, refl, refl)

if-Keeps :
    (r : Rule) (b : Bool) (x y : Option Rule)
    → KeepsIn r x
    → KeepsIn r y
    → KeepsIn r (if b then x else y)
if-Keeps r true x y hx hy = hx
if-Keeps r false x y hx hy = hy

handle_option-Keeps :
    (users : Users) (r : Rule) (name value : Bytes) → KeepsIn r (handle_option users r name value)
unfolding handle_option option_help option_logmask option_stdin option_sudo option_summary
    option_user
handle_option-Keeps users r name value =
    if-Keeps r (same name (codes "help")) _ _ (refl, refl, refl, refl, refl)
      (if-Keeps r (same name (codes "logmask")) _ _ (set_logmask-Keeps r _) (
        if-Keeps r (same name (codes "stdin")) _ _
          (if-Keeps r (same value (codes "last")) _ _ (refl, refl, refl, refl, refl)
            (set_stdin-Keeps r _))
          (if-Keeps r (same name (codes "sudo")) _ _ (refl, refl, refl, refl, refl)
            (if-Keeps r (same name (codes "summary")) _ _ (refl, refl, refl, refl, refl)
              (if-Keeps r (same name (codes "user")) _ _ (set_user-Keeps r _) tt)))))

split_option-Keeps :
    (users : Users) (r : Rule) (parts : Option (Bytes × Bytes))
    → KeepsIn r (split_option users r parts)
unfolding split_option
split_option-Keeps users r none = tt
split_option-Keeps users r (some (name, value)) = handle_option-Keeps users r name value

-- The options in front of the ACLs, of which there is one at least.
abbrev pub Splits : List Bytes → Rule → Type 0
Splits words r =
    (options : List Bytes) × (acl : Bytes) × (rest : List Bytes) × (words ≡ options ++ acl ∷ rest)
    × All (λ word. is_option word ≡ true) options
    × (is_option acl ≡ false)
    × (r.acls ≡ acl ∷ rest)

Splits-cons :
    (word : Bytes) (words : List Bytes) (r : Rule)
    → is_option word ≡ true
    → Splits words r
    → Splits (word ∷ words) r
Splits-cons word words r h (options, acl, rest, e, all, stop, acls) =
    (word ∷ options, acl, rest, ap (λ ws. word ∷ ws) e, (h, all), stop, acls)

Keeps-trans : (r s t : Rule) → Keeps r s → Keeps s t → Keeps r t
Keeps-trans r s t (a, b, c, d, e) (a', b', c', d', e') = (a' ∙ a, b' ∙ b, c' ∙ c, d' ∙ d, e' ∙ e)

-- The parts of an option that the loop goes on from.
with_option_parts :
    (r : Rule) (o : Option Rule) (next : Rule → Option Rule) (t : Rule)
    → KeepsIn r o
    → with_option o next ≡ some t
    → (s : Rule) × Keeps r s × (next s ≡ some t)
unfolding with_option
with_option_parts r none next t k h = absurd (cc h)
with_option_parts r (some s) next t k h = (s, k, h)

ended :
    (r t : Rule) (word : Bytes) (words : List Bytes)
    → is_option word ≡ false
    → some (record r { acls = word ∷ words }) ≡ some t
    → Splits (word ∷ words) t × Keeps r t
ended r t word words e h =
    let same_rule : record r { acls = word ∷ words } ≡ t = cc h in
    (
      ([], word, words, refl, tt, e, ap (λ (x : Rule). x.acls) (sym same_rule)),
      (
        ap (λ (x : Rule). x.file) (sym same_rule),
        ap (λ (x : Rule). x.lineno) (sym same_rule),
        ap (λ (x : Rule). x.command) (sym same_rule),
        ap (λ (x : Rule). x.subcommand) (sym same_rule),
        ap (λ (x : Rule). x.program) (sym same_rule),
      ),
    )

parse_words_lem :
    (users : Users) (r : Rule) (words : List Bytes) (t : Rule)
    → parse_words users r words ≡ some t
    → Splits words t × Keeps r t
unfolding parse_words parse_conf_option
parse_words_lem users r [] t h = absurd (cc h)
parse_words_lem users r (word ∷ words) t h = elim (Bool-cases (is_option word)) [
  | inl e ↦
      (let (s, k, later) =
          with_option_parts r (parse_conf_option users r word)
            (λ next. parse_words users next words) t (split_option-Keeps users r (break_at 61 word))
            (rw e at h) in
        let (splits, k') = parse_words_lem users s words t later in
        (Splits-cons word words t e splits, Keeps-trans r s t k k'))
  | inr e ↦ ended r t word words e (rw e at h)
]

-- A line that gives a rule has a command, a subcommand and a program, options, and at least one
-- word that is no option; the rule has the words before the options as they are, the ACLs are that
-- word and all behind it, and no option changes any of this.
pub parse_rule_lem :
    (users : Users) (name : Bytes) (lineno : ℕ) (words : List Bytes) (r : Rule)
    → parse_rule users name lineno words ≡ some r
    → (r.file ≡ name)
      × (r.lineno ≡ lineno)
      × ((rest : List Bytes) × (words ≡ r.command ∷ r.subcommand ∷ r.program ∷ rest)
          × Splits rest r)
unfolding parse_rule
parse_rule_lem users name lineno [] r h = absurd (cc h)
parse_rule_lem users name lineno (a ∷ []) r h = absurd (cc h)
parse_rule_lem users name lineno (a ∷ b ∷ []) r h = absurd (cc h)
parse_rule_lem users name lineno (a ∷ b ∷ c ∷ []) r h = absurd (cc h)
parse_rule_lem users name lineno (command ∷ subcommand ∷ program ∷ word ∷ words) r h =
    let (splits, (file, line, e, e', e'')) =
      parse_words_lem users (new_rule name lineno command subcommand program) (word ∷ words) r h in
    (file, line, (word ∷ words, cc (e, e', e''), splits))
