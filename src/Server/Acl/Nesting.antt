-- ===== src/Server/Acl/Nesting.antt =====
-- ACL files that include no file again, directly or not, are checked with fuel for the nesting of
-- files and entries.
use remctl.Base.{
  ℕ, zero, suc, ◌+◌, ◌*◌, ◌<◌, ◌≤◌, ◌≡◌, ◌≢◌, refl, false, inl, inr, true, Bool-cases, Option, none,
  some, Option-cases, List, [], ◌∷◌, length, same, Bytes, codes, arith, All,
}
use mathlib.Core.Path.{subst}
use remctl.Server.Session.{Client}
use remctl.Server.Rule.{Rule}
use remctl.Server.Acl.{spent, System}
use remctl.Server.Acl.Lines
use remctl.Server.Acl.Lines.{
  Scheme, Line, skipped, malformed, acl_entry, parse_line, break_at, schemes, find_scheme,
}
use remctl.Server.Acl.Check.{
  check_opened, acl_check_file_internal, scheme_check, check_found, check_parts, check_entry,
  expand, acl_check, permit_any, server_config_acl_permit,
}
use remctl.Server.Acl.Leads.{
  rounds, SchemeLeads, FoundLeads, PartsLeads, Leads, LineLeads, IsRanked, kind-weaken,
  rounds_bounds, budget, budget-suc, budget_mono, budget_product, break_at-length,
}
use remctl.Server.Acl.Decided.{
  acl_check_deny_not_spent, supported_not_spent, handle_include-Ends, LineEnds,
  check_lines_not_spent, decide_not_none,
}

module _ (system : System) (client : Client) (width : ℕ) (rank : Bytes → ℕ)
    (ranked : IsRanked system client width rank) where
  -- Entries that lead to files of a rank below `bound` are decided with this fuel.
  abbrev Enough : ℕ → Type 0
  Enough fuel =
      (bound : ℕ) (entry : Bytes) (default : Scheme) (file : Bytes)
      → Leads system client (λ name. rank name < bound) fuel entry default
      → rounds entry default + budget width bound < fuel
      → acl_check system client fuel entry default file ≢ spent

  module _ (fuel : ℕ) (enough : Enough fuel) where
    lines_end :
        (aclfile : Bytes) (strings : List Bytes)
        → width + budget width (rank aclfile) ≤ fuel
        → All
            (λ string.
              LineLeads system client width
                (λ included. rank included < rank aclfile)
                (parse_line system.bufsiz string))
            strings
        → All
            (λ string.
              LineEnds system client
                (acl_check system client fuel)
                aclfile
                (parse_line system.bufsiz string))
            strings
    lines_end aclfile [] small h = tt
    lines_end aclfile (string ∷ strings) small (p, h) =
        (line_ends (parse_line system.bufsiz string) p, lines_end aclfile strings small h)
      where
        line_ends :
            (line : Line)
            → LineLeads system client width (λ included. rank included < rank aclfile) line
            → LineEnds system client (acl_check system client fuel) aclfile line
        line_ends skipped h = tt
        line_ends malformed h = tt
        line_ends (acl_entry value scheme) (short, leads) =
            enough (rank aclfile) value scheme aclfile (leads fuel) (omega arith)

    file_ends :
        (aclfile : Bytes)
        → width + budget width (rank aclfile) ≤ fuel
        → acl_check_file_internal system client (acl_check system client fuel) aclfile ≢ spent
    unfolding acl_check_file_internal check_opened
    file_ends aclfile small = elim (Option-cases (system.lines aclfile)) [
      | inl e ↦ rw e (λ e'. cc)
      | inr (strings, e) ↦ rw e (
          check_lines_not_spent system client (acl_check system client fuel) aclfile strings
            (lines_end aclfile strings small (ranked aclfile strings e)))
    ]

    scheme_ends :
        (bound : ℕ) (scheme : Scheme) (value file : Bytes)
        → SchemeLeads system client
            (λ name. rank name < bound)
            (Leads system client (λ name. rank name < bound) fuel)
            scheme
            value
        → rounds value scheme + budget width bound ≤ fuel
        → scheme_check system client (acl_check system client fuel) scheme value file ≢ spent
    unfolding scheme_check rounds
    scheme_ends bound Lines.file value file h small =
        handle_include-Ends system client
          (acl_check_file_internal system client (acl_check system client fuel)) value file
          (kind-weaken system client (λ name. rank name < bound) _
            (λ name less. file_ends name (
              omega (
                arith,
                budget_mono width (suc (rank name)) bound less,
                budget-suc width (rank name),
              )))
            value (system.stat value) h)
    scheme_ends bound Lines.princ value file h small = λ e. cc
    scheme_ends bound Lines.anyuser value file h small = λ e. cc
    scheme_ends bound Lines.deny value file h small =
        acl_check_deny_not_spent _
          (enough bound value Lines.princ file h (unfold rounds in omega arith))
    scheme_ends bound Lines.gput value file h small = supported_not_spent system.gput _
    scheme_ends bound Lines.localgroup value file h small = supported_not_spent system.localgroup _
    scheme_ends bound Lines.pcre value file h small = supported_not_spent system.pcre _
    scheme_ends bound Lines.regex value file h small = supported_not_spent system.regex _

    parts_end :
        (bound : ℕ) (entry : Bytes) (default : Scheme) (file : Bytes)
        (parts : Option (Bytes × Bytes))
        → break_at b':' entry ≡ parts
        → PartsLeads system client
            (λ name. rank name < bound)
            (Leads system client (λ name. rank name < bound) fuel)
            entry
            default
            parts
        → rounds entry default + budget width bound ≤ fuel
        → check_parts system client (acl_check system client fuel) entry default file parts ≢ spent
    unfolding check_parts check_found
    parts_end bound entry default file none e h small = scheme_ends bound default entry file h small
    parts_end bound entry default file (some (prefix, value)) e h small =
        found_ends (find_scheme prefix schemes) h
      where
        found_ends :
            (found : Option Scheme)
            → FoundLeads system client
                (λ name. rank name < bound)
                (Leads system client (λ name. rank name < bound) fuel)
                found
                value
            → check_found system client (acl_check system client fuel) found value file ≢ spent
        found_ends none h' = λ e'. cc
        found_ends (some scheme) h' = scheme_ends bound scheme value file h' (
            omega (
              arith,
              rounds_bounds value scheme,
              rounds_bounds entry default,
              break_at-length b':' entry prefix value e,
            ))

expand_any :
    (system : System) (client : Client) (entry : Bytes)
    → same entry (codes "ANYUSER") ≡ true
    → expand system client entry ≡ codes "anyuser:auth"
unfolding expand
expand_any system client entry e = rw e refl

expand_other :
    (system : System) (client : Client) (entry : Bytes)
    → same entry (codes "ANYUSER") ≡ false
    → expand system client entry ≡ entry
unfolding expand
expand_other system client entry e = rw e refl

-- Where the entries of every ACL file are shorter than `width` and lead to files of a lower rank
-- only, so that no file includes itself, an entry that leads to files of a rank below `bound` is
-- decided with fuel for its own length and `width` for each rank.
pub acl_check_ends :
    (system : System) (client : Client) (width : ℕ) (rank : Bytes → ℕ) (fuel bound : ℕ)
    (entry : Bytes) (default : Scheme) (file : Bytes)
    → IsRanked system client width rank
    → Leads system client (λ name. rank name < bound) fuel entry default
    → rounds entry default + budget width bound < fuel
    → acl_check system client fuel entry default file ≢ spent
unfolding acl_check check_entry
acl_check_ends system client width rank zero bound entry default file ranked h small =
    absurd (omega arith)
acl_check_ends system client width rank (suc fuel) bound entry default file ranked h small =
    elim (Bool-cases (same entry (codes "ANYUSER"))) [
      | inl e ↦
          rw (expand_any system client entry e)
            (unfold check_parts check_found scheme_check break_at find_scheme same in λ e'. cc)
      | inr e ↦ rw (expand_other system client entry e) (
          parts_end system client width rank ranked fuel
            (λ bound' entry' default' file' h' small'.
              acl_check_ends system client width rank fuel bound' entry' default' file' ranked h'
                small')
            bound entry default file (break_at b':' entry) refl
            (subst
              (λ x.
                PartsLeads system client (λ name. rank name < bound)
                  (Leads system client (λ name. rank name < bound) fuel) x default
                  (break_at b':' x))
              (expand_other system client entry e) h)
            (omega arith))
    ]

module _ (system : System) (client : Client) (width : ℕ) (rank : Bytes → ℕ) (fuel bound : ℕ)
    (ranked : IsRanked system client width rank) (enough : width * suc bound ≤ fuel) where
  permit_any_ends :
      (file : Bytes) (acls : List Bytes)
      → All
          (λ acl.
            (length acl < width)
            × ((n : ℕ) → Leads system client (λ name. rank name < bound) n acl Lines.file))
          acls
      → permit_any system client fuel file acls ≢ none
  unfolding permit_any
  permit_any_ends file [] h = λ e. cc
  permit_any_ends file (acl ∷ acls) ((short, leads), h) =
      decide_not_none system client (acl_check system client fuel acl Lines.file file) _
        (acl_check_ends system client width rank fuel bound acl Lines.file file ranked (leads fuel)
          (unfold rounds in
            omega (arith, budget-suc width bound, budget_product width (suc bound))))
        (permit_any_ends file acls h)

  -- Where the entries of every ACL file are shorter than `width` and lead to files of a lower rank
  -- only, so that no file includes itself, and the entries of a rule are shorter than `width` and
  -- lead to files of a rank below `bound` only, the access check of the rule comes to a decision
  -- with fuel for `width` times one more than `bound`.
  pub server_config_acl_permit_ends :
      (rule : Rule)
      → All
          (λ acl.
            (length acl < width)
            × ((n : ℕ) → Leads system client (λ name. rank name < bound) n acl Lines.file))
          rule.acls
      → server_config_acl_permit system client fuel rule ≢ none
  unfolding server_config_acl_permit
  server_config_acl_permit_ends rule h = permit_any_ends rule.file rule.acls h
