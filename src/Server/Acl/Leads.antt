-- ===== src/Server/Acl/Leads.antt =====
-- The files that an entry of an ACL and the lines of an ACL file of server/config.c lead to, and the
-- rounds that they take.
use remctl.Base.{
  ℕ, zero, suc, ◌+◌, ◌*◌, ◌<◌, ◌≤◌, ◌≡◌, refl, Bool, false, if◌then◌else◌, true, Option, none, some,
  List, [], ◌∷◌, ◌++◌, length, ◌==◌, Bytes, arith, All,
}
use remctl.Server.Session.{Client}
use remctl.Server.Acl.{Kind, regular, directory, System}
use remctl.Server.Acl.Lines
use remctl.Server.Acl.Lines.{
  Scheme, Line, skipped, malformed, acl_entry, parse_line, break_at, schemes, find_scheme,
}
use remctl.Server.Acl.Include.{valid_filename}
use remctl.Server.Acl.Check.{expand}

pub break_cons-length :
    (hit : Bool) (c : ℕ) (string prefix value : Bytes) (parts : Option (Bytes × Bytes))
    → ((before behind : Bytes) → parts ≡ some (before, behind) → length behind < length string)
    → if◌then◌else◌ {A = Option (Bytes × Bytes)} hit
        (some ([], string))
        (elim parts [ none ↦ none | some parts ↦ some (c ∷ parts.0, parts.1) ])
      ≡ some (prefix, value)
    → length value < suc (length string)
break_cons-length true c string prefix value parts h e =
    let same_length : length string ≡ length value = cc e in omega arith
break_cons-length false c string prefix value none h e = absurd (cc e)
break_cons-length false c string prefix value (some (before, behind)) h e =
    let less = h before behind refl in
    let same_length : length behind ≡ length value = cc e in omega arith

-- What is behind an octet of a string is shorter than the string.
pub break_at-length :
    (wanted : ℕ) (string prefix value : Bytes)
    → break_at wanted string ≡ some (prefix, value)
    → length value < length string
unfolding break_at
break_at-length wanted [] prefix value e = absurd (cc e)
break_at-length wanted (c ∷ string) prefix value e =
    break_cons-length (c == wanted) c string prefix value (break_at wanted string)
      (break_at-length wanted string) e

-- How many rounds of `acl_check` an entry takes before it comes to a file.
unfoldable pub rounds : Bytes → Scheme → ℕ
rounds entry Lines.deny = suc (length entry)
rounds entry scheme = length entry

module _ (system : System) (client : Client) (Q : Bytes → Type 0) where
  -- The files that an include reads have `Q`.
  abbrev pub IncludedKind : Bytes → Option Kind → Type 0
  IncludedKind included none = Unit
  IncludedKind included (some regular) = Q included
  IncludedKind included (some (directory none)) = Unit
  IncludedKind included (some (directory (some names))) =
      All (λ name. valid_filename name ≡ true → Q (included ++ b'/' ∷ name)) names

  abbrev pub SchemeLeads : (Bytes → Scheme → Type 0) → Scheme → Bytes → Type 0
  SchemeLeads leads Lines.file value = IncludedKind value (system.stat value)
  SchemeLeads leads Lines.deny value = leads value Lines.princ
  SchemeLeads leads scheme value = Unit

  abbrev pub FoundLeads : (Bytes → Scheme → Type 0) → Option Scheme → Bytes → Type 0
  FoundLeads leads none value = Unit
  FoundLeads leads (some scheme) value = SchemeLeads leads scheme value

  abbrev pub PartsLeads :
      (Bytes → Scheme → Type 0) → Bytes → Scheme → Option (Bytes × Bytes) → Type 0
  PartsLeads leads entry default none = SchemeLeads leads default entry
  PartsLeads leads entry default (some (prefix, value)) =
      FoundLeads leads (find_scheme prefix schemes) value

  -- The files that an entry reads, behind that many denials at most, have `Q`.
  abbrev pub Leads : ℕ → Bytes → Scheme → Type 0
  Leads zero entry default = Unit
  Leads (suc n) entry default =
      PartsLeads (Leads n) (expand system client entry) default
        (break_at b':' (expand system client entry))

pub rounds_bounds :
    (entry : Bytes) (scheme : Scheme)
    → (length entry ≤ rounds entry scheme) × (rounds entry scheme ≤ suc (length entry))
unfolding rounds
rounds_bounds entry Lines.file = omega arith
rounds_bounds entry Lines.princ = omega arith
rounds_bounds entry Lines.anyuser = omega arith
rounds_bounds entry Lines.deny = omega arith
rounds_bounds entry Lines.gput = omega arith
rounds_bounds entry Lines.localgroup = omega arith
rounds_bounds entry Lines.pcre = omega arith
rounds_bounds entry Lines.regex = omega arith

-- Each file takes `width` rounds for the entries of one of its lines.
unfoldable pub budget : ℕ → ℕ → ℕ
budget width zero = 0
budget width (suc n) = width + budget width n

pub budget-suc : (width n : ℕ) → budget width (suc n) ≡ width + budget width n
unfolding budget
budget-suc width n = refl

pub budget_mono : (width m n : ℕ) → m ≤ n → budget width m ≤ budget width n
unfolding budget
budget_mono width zero n h = omega arith
budget_mono width (suc m) zero h = absurd (omega arith)
budget_mono width (suc m) (suc n) h = let less = budget_mono width m n (omega arith) in omega arith

pub budget_product : (width n : ℕ) → budget width n ≡ width * n
unfolding budget
budget_product width zero = omega arith
budget_product width (suc n) = rw (budget_product width n) (omega arith)

-- What the lines of a file lead to.
abbrev pub LineLeads : System → Client → ℕ → (Bytes → Type 0) → Line → Type 0
LineLeads system client width Q skipped = Unit
LineLeads system client width Q malformed = Unit
LineLeads system client width Q (acl_entry value scheme) =
    (rounds value scheme < width) × ((n : ℕ) → Leads system client Q n value scheme)

-- The entries of each ACL file are shorter than `width` and lead to files of a lower rank.
abbrev pub IsRanked : System → Client → ℕ → (Bytes → ℕ) → Type 0
IsRanked system client width rank =
    (name : Bytes) (strings : List Bytes)
    → system.lines name ≡ some strings
    → All
        (λ string.
          LineLeads system client width (λ included. rank included < rank name)
            (parse_line system.bufsiz string))
        strings

module _ (system : System) (client : Client) (Q R : Bytes → Type 0)
    (weaken : (name : Bytes) → Q name → R name) where
  All-weaken :
      (included : Bytes) (names : List Bytes)
      → All (λ name. valid_filename name ≡ true → Q (included ++ b'/' ∷ name)) names
      → All (λ name. valid_filename name ≡ true → R (included ++ b'/' ∷ name)) names
  All-weaken included [] h = tt
  All-weaken included (name ∷ names) (p, h) =
      (λ e. weaken (included ++ b'/' ∷ name) (p e), All-weaken included names h)

  pub kind-weaken :
      (included : Bytes) (kind : Option Kind)
      → IncludedKind system client Q included kind
      → IncludedKind system client R included kind
  kind-weaken included none h = tt
  kind-weaken included (some regular) h = weaken included h
  kind-weaken included (some (directory none)) h = tt
  kind-weaken included (some (directory (some names))) h = All-weaken included names h
