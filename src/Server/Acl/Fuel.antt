-- ===== src/Server/Acl/Fuel.antt =====
-- More fuel does not change a decision.
use remctl.Base.{
  ℕ, zero, suc, ◌+◌, ◌≡◌, refl, sym, ap, ◌∙◌, ◌⊎◌, inl, inr, Bool-cases, Option, none, some, List,
  [], ◌∷◌, ◌++◌, same, Bytes, arith,
}
use remctl.Server.Session.{Client}
use remctl.Server.Acl.{
  Status, success, nomatch, error, deny, Answer, decided, spent, Kind, regular, directory, System,
}
use remctl.Server.Acl.Lines
use remctl.Server.Acl.Lines.{
  Scheme, Line, skipped, malformed, acl_entry, parse_line, break_at, schemes, find_scheme,
}
use remctl.Server.Acl.Include.{
  valid_filename, keep_status, include_all, include_kind, handle_include,
}
use remctl.Server.Acl.Check.{
  acl_check_deny, first_decision, check_line, check_lines, check_opened, acl_check_file_internal,
  scheme_check, check_found, check_parts, check_entry, expand, acl_check,
}

-- The first answer ran out of fuel, or both are the same.
infix 4 ◌≼◌
abbrev ◌≼◌ : Answer → Answer → Type 0
a ≼ b = (a ≡ spent) ⊎ (a ≡ b)

add_zero : (n : ℕ) → 0 + n ≡ n
add_zero n = omega arith

suc_add : (m n : ℕ) → suc m + n ≡ suc (m + n)
suc_add m n = omega arith

decided-same : {a b : Answer} {status : Status} → a ≼ b → a ≡ decided status → b ≡ decided status
decided-same (inl e) h = absurd (cc (e, h))
decided-same (inr e) h = sym e ∙ h

keep_status-same :
    (a : Answer) (status : Status) (rest rest' : Status → Answer)
    → ((s : Status) → rest s ≼ rest' s)
    → keep_status a status rest ≼ keep_status a status rest'
unfolding keep_status
keep_status-same (decided success) status rest rest' h = h success
keep_status-same (decided nomatch) status rest rest' h = h status
keep_status-same (decided error) status rest rest' h = inr refl
keep_status-same (decided deny) status rest rest' h = inr refl
keep_status-same spent status rest rest' h = inr refl

keep_status-mono :
    (a b : Answer) (status : Status) (rest rest' : Status → Answer)
    → a ≼ b
    → ((s : Status) → rest s ≼ rest' s)
    → keep_status a status rest ≼ keep_status b status rest'
unfolding keep_status
keep_status-mono a b status rest rest' (inl e) h = inl (rw e refl)
keep_status-mono a b status rest rest' (inr e) h = rw e (keep_status-same b status rest rest' h)

first_decision-same :
    (system : System) (client : Client) (a : Answer) (rest rest' : Answer)
    → rest ≼ rest'
    → first_decision system client a rest ≼ first_decision system client a rest'
unfolding first_decision
first_decision-same system client (decided success) rest rest' h = inr refl
first_decision-same system client (decided nomatch) rest rest' h = h
first_decision-same system client (decided error) rest rest' h = inr refl
first_decision-same system client (decided deny) rest rest' h = inr refl
first_decision-same system client spent rest rest' h = inr refl

first_decision-mono :
    (system : System) (client : Client) (a b : Answer) (rest rest' : Answer)
    → a ≼ b
    → rest ≼ rest'
    → first_decision system client a rest ≼ first_decision system client b rest'
unfolding first_decision
first_decision-mono system client a b rest rest' (inl e) h = inl (rw e refl)
first_decision-mono system client a b rest rest' (inr e) h =
    rw e (first_decision-same system client b rest rest' h)

acl_check_deny-mono : (a b : Answer) → a ≼ b → acl_check_deny a ≼ acl_check_deny b
unfolding acl_check_deny
acl_check_deny-mono a b (inl e) = inl (rw e refl)
acl_check_deny-mono a b (inr e) = inr (ap acl_check_deny e)

module _ (function function' : Bytes → Answer)
    (h : (name : Bytes) → function name ≼ function' name) where
  include_all-mono :
      (included : Bytes) (names : List Bytes) (status : Status)
      → include_all function included names status ≼ include_all function' included names status
  unfolding include_all
  include_all-mono included [] status = inr refl
  include_all-mono included (name ∷ names) status = elim (Bool-cases (valid_filename name)) [
    | inl e ↦ rw e (
        keep_status-mono _ _ status _ _ (h (included ++ 47 ∷ name))
          (include_all-mono included names))
    | inr e ↦ rw e (include_all-mono included names status)
  ]

  include_kind-mono :
      (included : Bytes) (kind : Option Kind)
      → include_kind function included kind ≼ include_kind function' included kind
  unfolding include_kind
  include_kind-mono included none = inr refl
  include_kind-mono included (some regular) = h included
  include_kind-mono included (some (directory none)) = inr refl
  include_kind-mono included (some (directory (some names))) =
      include_all-mono included names nomatch

  handle_include-mono :
      (system : System) (included file : Bytes)
      → handle_include system included file function ≼ handle_include system included file function'
  unfolding handle_include
  handle_include-mono system included file = elim (Bool-cases (same included file)) [
    | inl e ↦ rw e (inr refl)
    | inr e ↦ rw e (include_kind-mono included (system.stat included))
  ]

module _ (system : System) (client : Client) where
  module _ (check check' : Bytes → Scheme → Bytes → Answer)
      (h : (value : Bytes) (scheme : Scheme) (file : Bytes)
        → check value scheme file ≼ check' value scheme file) where
    check_line-mono :
        (aclfile : Bytes) (line : Line) (rest rest' : Answer)
        → rest ≼ rest'
        → check_line system client check aclfile line rest
          ≼ check_line system client check' aclfile line rest'
    unfolding check_line
    check_line-mono aclfile skipped rest rest' e = e
    check_line-mono aclfile malformed rest rest' e = inr refl
    check_line-mono aclfile (acl_entry value scheme) rest rest' e =
        first_decision-mono system client _ _ rest rest' (h value scheme aclfile) e

    check_lines-mono :
        (aclfile : Bytes) (strings : List Bytes)
        → check_lines system client check aclfile strings
          ≼ check_lines system client check' aclfile strings
    unfolding check_lines
    check_lines-mono aclfile [] = inr refl
    check_lines-mono aclfile (string ∷ strings) =
        check_line-mono aclfile (parse_line system.bufsiz string) _ _
          (check_lines-mono aclfile strings)

    check_opened-mono :
        (aclfile : Bytes) (opened : Option (List Bytes))
        → check_opened system client check aclfile opened
          ≼ check_opened system client check' aclfile opened
    unfolding check_opened
    check_opened-mono aclfile none = inr refl
    check_opened-mono aclfile (some strings) = check_lines-mono aclfile strings

    acl_check_file_internal-mono :
        (aclfile : Bytes)
        → acl_check_file_internal system client check aclfile
          ≼ acl_check_file_internal system client check' aclfile
    unfolding acl_check_file_internal
    acl_check_file_internal-mono aclfile = check_opened-mono aclfile (system.lines aclfile)

    scheme_check-mono :
        (scheme : Scheme) (value file : Bytes)
        → scheme_check system client check scheme value file
          ≼ scheme_check system client check' scheme value file
    unfolding scheme_check
    scheme_check-mono Lines.file value file =
        handle_include-mono _ _ acl_check_file_internal-mono system value file
    scheme_check-mono Lines.princ value file = inr refl
    scheme_check-mono Lines.anyuser value file = inr refl
    scheme_check-mono Lines.deny value file = acl_check_deny-mono _ _ (h value Lines.princ file)
    scheme_check-mono Lines.gput value file = inr refl
    scheme_check-mono Lines.localgroup value file = inr refl
    scheme_check-mono Lines.pcre value file = inr refl
    scheme_check-mono Lines.regex value file = inr refl

    check_found-mono :
        (scheme : Option Scheme) (value file : Bytes)
        → check_found system client check scheme value file
          ≼ check_found system client check' scheme value file
    unfolding check_found
    check_found-mono none value file = inr refl
    check_found-mono (some scheme) value file = scheme_check-mono scheme value file

    check_parts-mono :
        (entry : Bytes) (default : Scheme) (file : Bytes) (parts : Option (Bytes × Bytes))
        → check_parts system client check entry default file parts
          ≼ check_parts system client check' entry default file parts
    unfolding check_parts
    check_parts-mono entry default file none = scheme_check-mono default entry file
    check_parts-mono entry default file (some (prefix, value)) =
        check_found-mono (find_scheme prefix schemes) value file

  acl_check-step :
      (fuel : ℕ) (entry : Bytes) (default : Scheme) (file : Bytes)
      → acl_check system client fuel entry default file
        ≼ acl_check system client (suc fuel) entry default file
  unfolding acl_check check_entry
  acl_check-step zero entry default file = inl refl
  acl_check-step (suc fuel) entry default file =
      check_parts-mono (acl_check system client fuel) (acl_check system client (suc fuel))
        (acl_check-step fuel) (expand system client entry) default file
        (break_at 58 (expand system client entry))

  -- What is decided with some fuel is decided in the same way with more.
  pub acl_check_more :
      (fuel more : ℕ) (entry : Bytes) (default : Scheme) (file : Bytes) (status : Status)
      → acl_check system client fuel entry default file ≡ decided status
      → acl_check system client (more + fuel) entry default file ≡ decided status
  acl_check_more fuel zero entry default file status h =
      ap (λ n. acl_check system client n entry default file) (add_zero fuel) ∙ h
  acl_check_more fuel (suc more) entry default file status h =
      ap (λ n. acl_check system client n entry default file) (suc_add more fuel)
      ∙ decided-same (acl_check-step (more + fuel) entry default file)
          (acl_check_more fuel more entry default file status h)
