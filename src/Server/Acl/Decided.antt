-- ===== src/Server/Acl/Decided.antt =====
-- The parts of `acl_check` of server/config.c come to an answer where the calls that they make do.
use remctl.Base.{
  ◌≡◌, ◌≢◌, refl, Bool, inl, inr, true, Bool-cases, Option, none, some, List, [], ◌∷◌, ◌++◌, same,
  Bytes, All,
}
use remctl.Server.Session.{Client}
use remctl.Server.Acl.{
  Status, success, nomatch, error, deny, Answer, decided, spent, Kind, regular, directory, System,
}
use remctl.Server.Acl.Lines.{Scheme, Line, skipped, malformed, acl_entry, parse_line}
use remctl.Server.Acl.Include.{
  valid_filename, keep_status, include_all, include_kind, handle_include,
}
use remctl.Server.Acl.Check.{
  acl_check_deny, first_decision, check_line, check_lines, supported, decide,
}
use remctl.Server.Acl.Leads.{IncludedKind}

pub keep_status_not_spent :
    (a : Answer) (status : Status) (rest : Status → Answer)
    → a ≢ spent
    → ((s : Status) → rest s ≢ spent)
    → keep_status a status rest ≢ spent
unfolding keep_status
keep_status_not_spent (decided success) status rest h h' = h' success
keep_status_not_spent (decided nomatch) status rest h h' = h' status
keep_status_not_spent (decided error) status rest h h' = λ e. cc
keep_status_not_spent (decided deny) status rest h h' = λ e. cc
keep_status_not_spent spent status rest h h' = absurd (h refl)

pub acl_check_deny_not_spent : (a : Answer) → a ≢ spent → acl_check_deny a ≢ spent
unfolding acl_check_deny
acl_check_deny_not_spent (decided success) h = λ e. cc
acl_check_deny_not_spent (decided nomatch) h = λ e. cc
acl_check_deny_not_spent (decided error) h = λ e. cc
acl_check_deny_not_spent (decided deny) h = λ e. cc
acl_check_deny_not_spent spent h = absurd (h refl)

pub supported_not_spent {ℓ} :
    {A : Type ℓ} (library : Option A) (check : A → Status) → supported library check ≢ spent
unfolding supported
supported_not_spent none check = λ e. cc
supported_not_spent (some library) check = λ e. cc

module _ (system : System) (client : Client) where
  module _ (function : Bytes → Answer) where
    pub include_all-Ends :
        (included : Bytes) (names : List Bytes) (status : Status)
        → All
            (λ name. valid_filename name ≡ true → function (included ++ b'/' ∷ name) ≢ spent)
            names
        → include_all function included names status ≢ spent
    unfolding include_all
    include_all-Ends included [] status h = λ e. cc
    include_all-Ends included (name ∷ names) status (p, h) =
        elim (Bool-cases (valid_filename name)) [
          | inl e ↦ rw e (
              keep_status_not_spent (function (included ++ b'/' ∷ name)) status _ (p e)
                (λ s. include_all-Ends included names s h))
          | inr e ↦ rw e (include_all-Ends included names status h)
        ]

    pub include_kind-Ends :
        (included : Bytes) (kind : Option Kind)
        → IncludedKind system client (λ name. function name ≢ spent) included kind
        → include_kind function included kind ≢ spent
    unfolding include_kind
    include_kind-Ends included none h = λ e. cc
    include_kind-Ends included (some regular) h = h
    include_kind-Ends included (some (directory none)) h = λ e. cc
    include_kind-Ends included (some (directory (some names))) h =
        include_all-Ends included names nomatch h

    pub handle_include-Ends :
        (included file : Bytes)
        → IncludedKind system client (λ name. function name ≢ spent) included (system.stat included)
        → handle_include system included file function ≢ spent
    unfolding handle_include
    handle_include-Ends included file h = elim (Bool-cases (same included file)) [
      | inl e ↦ rw e (λ e'. cc)
      | inr e ↦ rw e (include_kind-Ends included (system.stat included) h)
    ]

  pub first_decision_not_spent :
      (a rest : Answer) → a ≢ spent → rest ≢ spent → first_decision system client a rest ≢ spent
  unfolding first_decision
  first_decision_not_spent (decided success) rest h h' = λ e. cc
  first_decision_not_spent (decided nomatch) rest h h' = h'
  first_decision_not_spent (decided error) rest h h' = λ e. cc
  first_decision_not_spent (decided deny) rest h h' = λ e. cc
  first_decision_not_spent spent rest h h' = absurd (h refl)

  module _ (check : Bytes → Scheme → Bytes → Answer) (aclfile : Bytes) where
    -- The entry of a line is decided.
    abbrev pub LineEnds : Line → Type 0
    LineEnds skipped = Unit
    LineEnds malformed = Unit
    LineEnds (acl_entry value scheme) = check value scheme aclfile ≢ spent

    pub check_line_not_spent :
        (line : Line) (rest : Answer)
        → LineEnds line
        → rest ≢ spent
        → check_line system client check aclfile line rest ≢ spent
    unfolding check_line
    check_line_not_spent skipped rest h h' = h'
    check_line_not_spent malformed rest h h' = λ e. cc
    check_line_not_spent (acl_entry value scheme) rest h h' =
        first_decision_not_spent (check value scheme aclfile) rest h h'

    pub check_lines_not_spent :
        (strings : List Bytes)
        → All (λ string. LineEnds (parse_line system.bufsiz string)) strings
        → check_lines system client check aclfile strings ≢ spent
    unfolding check_lines
    check_lines_not_spent [] h = λ e. cc
    check_lines_not_spent (string ∷ strings) (p, h) =
        check_line_not_spent (parse_line system.bufsiz string) _ p (check_lines_not_spent strings h)

pub decide_not_none :
    (system : System) (client : Client) (a : Answer) (rest : Option Bool)
    → a ≢ spent
    → rest ≢ none
    → decide system client a rest ≢ none
unfolding decide
decide_not_none system client (decided success) rest h h' = λ e. cc
decide_not_none system client (decided nomatch) rest h h' = h'
decide_not_none system client (decided error) rest h h' = λ e. cc
decide_not_none system client (decided deny) rest h h' = λ e. cc
decide_not_none system client spent rest h h' = absurd (h refl)
