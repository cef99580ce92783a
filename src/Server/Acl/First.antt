-- ===== src/Server/Acl/First.antt =====
-- The decision of `server_config_acl_permit`: the first entry that decides.
use remctl.Base.{
  ℕ, suc, ◌≡◌, refl, ap, ◌∙◌, ◌↔◌, ◌⊎◌, inl, inr, Bool, true, Option, some, List, [], ◌∷◌, ◌++◌,
  All, Bytes,
}
use remctl.Server.Rule.{Rule}
use remctl.Server.Session.{Client}
use remctl.Server.Acl.{success, nomatch, error, deny, Answer, decided, spent, System}
use remctl.Server.Acl.Reads.{Answers, acl_check-Answers, Answers-acl_check}
use remctl.Server.Acl.Lines
use remctl.Server.Acl.Check.{acl_check, decide, permit_any, server_config_acl_permit}

module _ (system : System) (client : Client) (fuel : ℕ) (file : Bytes) where
  -- Some entry of the list gives success, and all before it match nothing.
  abbrev pub Granted : List Bytes → Type 0
  Granted acls =
      (before : List Bytes) × (acl : Bytes) × (after : List Bytes) × (acls ≡ before ++ acl ∷ after)
      × All (Answers system client fuel file nomatch) before
      × Answers system client fuel file success acl

  decide_cases :
      (answer : Answer) (rest : Option Bool)
      → decide system client answer rest ≡ some true
      → (answer ≡ decided success) ⊎ ((answer ≡ decided nomatch) × (rest ≡ some true))
  unfolding decide
  decide_cases (decided success) rest h = inl refl
  decide_cases (decided nomatch) rest h = inr (refl, h)
  decide_cases (decided error) rest h = absurd (cc h)
  decide_cases (decided deny) rest h = absurd (cc h)
  decide_cases spent rest h = absurd (cc h)

  Granted-cons :
      (acl : Bytes) (acls : List Bytes)
      → Answers system client fuel file nomatch acl
      → Granted acls
      → Granted (acl ∷ acls)
  Granted-cons acl acls h (before, a, after, e, all, hit) =
      (acl ∷ before, a, after, ap (λ xs. acl ∷ xs) e, (h, all), hit)

  granted :
      (acls : List Bytes) → permit_any system client (suc fuel) file acls ≡ some true → Granted acls
  unfolding permit_any
  granted [] h = absurd (cc h)
  granted (acl ∷ acls) h =
      elim (decide_cases (acl_check system client (suc fuel) acl Lines.file file)
        (permit_any system client (suc fuel) file acls) h) [
          | inl hit ↦ (
            [],
            acl,
            acls,
            refl,
            tt,
            acl_check-Answers system client fuel file success acl (λ e. cc) hit,
          )
          | inr (pass, later) ↦
              Granted-cons acl acls
                (acl_check-Answers system client fuel file nomatch acl (λ e. cc) pass)
                (granted acls later)
        ]

  grants :
      (before : List Bytes) (acl : Bytes) (after : List Bytes)
      → All (Answers system client fuel file nomatch) before
      → Answers system client fuel file success acl
      → permit_any system client (suc fuel) file (before ++ acl ∷ after) ≡ some true
  unfolding permit_any decide
  grants [] acl after all hit = rw (Answers-acl_check system client fuel file success acl hit) refl
  grants (b ∷ before) acl after (h, all) hit =
      rw (Answers-acl_check system client fuel file nomatch b h) (grants before acl after all hit)

-- On fuel of at least one, a rule is permitted exactly if one of its entries gives success, and
-- every entry before it matches nothing: an error or a denial before it forbids. What an entry
-- gives is what the check of its scheme says of its value: ANYUSER is the value auth of the scheme
-- anyuser, an entry without a colon is the name of a file, and any other entry has the name of its
-- scheme before its first colon and the value behind it; where that name is of no scheme, the entry
-- neither gives success nor matches nothing.
pub server_config_acl_permit_iff :
    (system : System) (client : Client) (fuel : ℕ) (rule : Rule)
    → (server_config_acl_permit system client (suc fuel) rule ≡ some true)
      ↔ Granted system client fuel rule.file rule.acls
unfolding server_config_acl_permit
server_config_acl_permit_iff system client fuel rule = (
  granted system client fuel rule.file rule.acls,
  λ (before, acl, after, e, all, hit).
      ap (permit_any system client (suc fuel) rule.file) e
      ∙ grants system client fuel rule.file before acl after all hit,
)
