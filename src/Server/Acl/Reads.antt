-- ===== src/Server/Acl/Reads.antt =====
-- How an entry of an ACL is read: `acl_check` of server/config.c up to the call of the scheme.
use remctl.Base.{
  ℕ, suc, ◌≡◌, ◌≢◌, refl, sym, ap, ◌∙◌, ◌⊎◌, inl, inr, false, Bool-cases, none, some, Option-cases,
  [], ◌∷◌, ◌++◌, ◌==◌, ==_iff, same, eq_of_same, same_refl, All, Bytes, codes,
}
use remctl.Server.Session.{Client}
use remctl.Server.Acl.{Status, error, Answer, decided, System}
use remctl.Server.Acl.Lines
use remctl.Server.Acl.Lines.{Scheme, break_at, schemes, find_scheme}
use remctl.Server.Acl.Check.{scheme_check, check_found, check_parts, check_entry, expand, acl_check}

abbrev Lacks : ℕ → Bytes → Type 0
Lacks wanted string = All (λ c. (c == wanted) ≡ false) string

-- What an entry of a rule asks for: ANYUSER is the value auth of the scheme anyuser, an entry
-- without a colon is the name of a file, and in any other entry the name of the scheme stands before
-- the first colon and the value behind it.
abbrev pub Reads : Bytes → Scheme → Bytes → Type 0
Reads acl scheme value =
    ((acl ≡ codes "ANYUSER") × (scheme ≡ Lines.anyuser) × (value ≡ codes "auth"))
    ⊎ ((acl ≢ codes "ANYUSER") × Lacks b':' acl × (scheme ≡ Lines.file) × (value ≡ acl))
    ⊎ ((prefix : Bytes) × (acl ≡ prefix ++ b':' ∷ value)
        × Lacks b':' prefix
        × (find_scheme prefix schemes ≡ some scheme))

-- The part before the first such octet, and the part behind it.
abbrev Breaks : ℕ → Bytes → Type 0
Breaks wanted string =
    ((break_at wanted string ≡ none) × Lacks wanted string)
    ⊎ ((prefix : Bytes) × (value : Bytes) × (break_at wanted string ≡ some (prefix, value))
        × (string ≡ prefix ++ wanted ∷ value)
        × Lacks wanted prefix)

break_at-Breaks : (wanted : ℕ) (string : Bytes) → Breaks wanted string
unfolding break_at
break_at-Breaks wanted [] = inl (refl, tt)
break_at-Breaks wanted (c ∷ string) = elim (Bool-cases (c == wanted)) [
  | inl hit ↦ inr ([], string, rw hit refl, ap (λ d. d ∷ string) ((==_iff c wanted).0 hit), tt)
  | inr other ↦ elim (break_at-Breaks wanted string) [
    | inl (e, lacks) ↦ inl (rw (other, e) refl, (other, lacks))
    | inr (prefix, value, e, splits, lacks) ↦
        inr (c ∷ prefix, value, rw (other, e) refl, ap (λ s. c ∷ s) splits, (other, lacks))
  ]
]

break_at_lem : (wanted : ℕ) (string : Bytes) → Lacks wanted string → break_at wanted string ≡ none
unfolding break_at
break_at_lem wanted [] h = refl
break_at_lem wanted (c ∷ string) (other, h) = rw (other, break_at_lem wanted string h) refl

break_at-append :
    (wanted : ℕ) (prefix value : Bytes)
    → Lacks wanted prefix
    → break_at wanted (prefix ++ wanted ∷ value) ≡ some (prefix, value)
unfolding break_at
break_at-append wanted [] value h = rw ((==_iff wanted wanted).1 refl) refl
break_at-append wanted (c ∷ prefix) value (other, h) =
    rw (other, break_at-append wanted prefix value h) refl

-- An entry with a colon is not ANYUSER.
colon_not_any :
    (prefix value : Bytes)
    → Lacks b':' prefix
    → same (prefix ++ b':' ∷ value) (codes "ANYUSER") ≡ false
colon_not_any prefix value h = elim (Bool-cases (same (prefix ++ b':' ∷ value) (codes "ANYUSER"))) [
  | inl e ↦
      let unbroken : break_at b':' (codes "ANYUSER") ≡ none = unfold break_at in refl in
      absurd (
        cc (
          sym (break_at-append b':' prefix value h)
          ∙ ap (break_at b':') (eq_of_same _ _ e)
          ∙ unbroken))
  | inr e ↦ e
]

not_same : (acl : Bytes) → acl ≢ codes "ANYUSER" → same acl (codes "ANYUSER") ≡ false
not_same acl h = elim (Bool-cases (same acl (codes "ANYUSER"))) [
  | inl e ↦ absurd (h (eq_of_same acl _ e))
  | inr e ↦ e
]

module _ (system : System) (client : Client) (fuel : ℕ) (file : Bytes) where
  abbrev checked : Scheme → Bytes → Answer
  checked scheme value = scheme_check system client (acl_check system client fuel) scheme value file

  -- The entry asks for a scheme and a value whose check has this status.
  abbrev pub Answers : Status → Bytes → Type 0
  Answers status acl =
      (scheme : Scheme) × (value : Bytes) × Reads acl scheme value
      × (scheme_check system client (acl_check system client fuel) scheme value file
          ≡ decided status)

  acl_check-Reads :
      (acl : Bytes) (scheme : Scheme) (value : Bytes)
      → Reads acl scheme value
      → acl_check system client (suc fuel) acl Lines.file file ≡ checked scheme value
  unfolding acl_check check_entry expand check_parts check_found
  acl_check-Reads acl scheme value (inl (e, is_anyuser, is_auth)) =
      rw (e, is_anyuser, is_auth) (unfold same break_at find_scheme in refl)
  acl_check-Reads acl scheme value (inr (inl (other, lacks, is_file, is_acl))) =
      rw (is_file, is_acl, not_same acl other, break_at_lem b':' acl lacks) refl
  acl_check-Reads acl scheme value (inr (inr (prefix, e, lacks, is_scheme))) =
      rw (e, colon_not_any prefix value lacks)
        (rw (break_at-append b':' prefix value lacks, is_scheme) refl)

  -- An entry is read, or the name of its scheme is unknown, which is an error.
  abbrev IsRead : Bytes → Type 0
  IsRead acl =
      ((scheme : Scheme) × (value : Bytes) × Reads acl scheme value)
      ⊎ (acl_check system client (suc fuel) acl Lines.file file ≡ decided error)

  acl_check-IsRead : (acl : Bytes) → IsRead acl
  unfolding acl_check check_entry expand check_parts check_found
  acl_check-IsRead acl = elim (break_at-Breaks b':' acl) [
    | inl (e, lacks) ↦ elim (Bool-cases (same acl (codes "ANYUSER"))) [
      | inl any ↦ inl (Lines.anyuser, codes "auth", inl (eq_of_same acl _ any, refl, refl))
      | inr other ↦ inl (
        Lines.file,
        acl,
        inr (
            inl (
              (λ e'. cc (
                  sym other ∙ ap (λ x. same x (codes "ANYUSER")) e' ∙ same_refl (codes "ANYUSER"))),
              lacks,
              refl,
              refl,
            )),
      )
    ]
    | inr (prefix, value, e, splits, lacks) ↦ elim (Option-cases (find_scheme prefix schemes)) [
      | inl unknown ↦ inr (
          rw (splits, colon_not_any prefix value lacks)
            (rw (break_at-append b':' prefix value lacks, unknown) refl))
      | inr (scheme, known) ↦ inl (scheme, value, inr (inr (prefix, splits, lacks, known)))
    ]
  ]

  -- A status that is no error comes from what the entry is read as.
  pub acl_check-Answers :
      (status : Status) (acl : Bytes)
      → status ≢ error
      → acl_check system client (suc fuel) acl Lines.file file ≡ decided status
      → Answers status acl
  acl_check-Answers status acl no_error h = elim (acl_check-IsRead acl) [
    | inl (scheme, value, reads) ↦
        (scheme, value, reads, sym (acl_check-Reads acl scheme value reads) ∙ h)
    | inr fails ↦ absurd (no_error (cc (sym h ∙ fails)))
  ]

  pub Answers-acl_check :
      (status : Status) (acl : Bytes)
      → Answers status acl
      → acl_check system client (suc fuel) acl Lines.file file ≡ decided status
  Answers-acl_check status acl (scheme, value, reads, h) =
      acl_check-Reads acl scheme value reads ∙ h
