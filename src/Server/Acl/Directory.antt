-- ===== src/Server/Acl/Directory.antt =====
-- The status of a directory of ACL files.
use remctl.Base.{
  ◌≡◌, refl, ap, ◌↔◌, ◌⊎◌, inl, inr, true, false, Bool-cases, some, List, [], ◌∷◌, ◌++◌, All, same,
  Bytes,
}
use remctl.Server.Acl.{
  Status, success, nomatch, error, deny, Answer, decided, spent, directory, System,
}
use remctl.Server.Acl.Include.{
  valid_filename, keep_status, include_all, include_kind, handle_include,
}

decided_status : {s t : Status} → decided s ≡ decided t → s ≡ t
decided_status h = cc h

behind {ℓ κ ι} : {A : Type ℓ} {B : Type κ} {C : Type ι} → (A → B) → C ⊎ A → C ⊎ B
behind f (inl s) = inl s
behind f (inr h) = inr (f h)

started {ℓ} : {A : Type ℓ} → (nomatch ≡ success) ⊎ A → A
started (inl e) = absurd (cc e)
started (inr h) = h

module _ (function : Bytes → Answer) (included : Bytes) where
  abbrev pub at : Bytes → Answer
  at name = function (included ++ 47 ∷ name)

  -- A name that the directory does not read, or a file that neither denies nor fails.
  abbrev pub Harmless : Bytes → Type 0
  Harmless name =
      (valid_filename name ≡ false) ⊎ ((at name ≡ decided success) ⊎ (at name ≡ decided nomatch))

  abbrev pub Grants : Bytes → Type 0
  Grants name = (valid_filename name ≡ true) × (at name ≡ decided success)

  abbrev pub Some : List Bytes → Type 0
  Some [] = ⊥
  Some (name ∷ names) = Grants name ⊎ Some names

  -- The parts of a round that ends in success.
  keep_parts :
      (answer : Answer) (status : Status) (rest : Status → Answer)
      → keep_status answer status rest ≡ decided success
      → ((answer ≡ decided success) × (rest success ≡ decided success))
        ⊎ ((answer ≡ decided nomatch) × (rest status ≡ decided success))
  unfolding keep_status
  keep_parts (decided success) status rest h = inl (refl, h)
  keep_parts (decided nomatch) status rest h = inr (refl, h)
  keep_parts (decided error) status rest h = absurd (cc h)
  keep_parts (decided deny) status rest h = absurd (cc h)
  keep_parts spent status rest h = absurd (cc h)

  Result : List Bytes → Status → Type 0
  Result names status = All Harmless names × ((status ≡ success) ⊎ Some names)

  skip_name :
      (name : Bytes) (names : List Bytes) (status : Status)
      → valid_filename name ≡ false
      → Result names status
      → Result (name ∷ names) status
  unfolding Result
  skip_name name names status e (all, inl s) = ((inl e, all), inl s)
  skip_name name names status e (all, inr s) = ((inl e, all), inr (inr s))

  grant_name :
      (name : Bytes) (names : List Bytes) (status : Status)
      → valid_filename name ≡ true
      → at name ≡ decided success
      → Result names success
      → Result (name ∷ names) status
  unfolding Result
  grant_name name names status v e (all, s) = ((inr (inl e), all), inr (inl (v, e)))

  pass_name :
      (name : Bytes) (names : List Bytes) (status : Status)
      → at name ≡ decided nomatch
      → Result names status
      → Result (name ∷ names) status
  unfolding Result
  pass_name name names status e (all, inl s) = ((inr (inr e), all), inl s)
  pass_name name names status e (all, inr s) = ((inr (inr e), all), inr (inr s))

  success_needs :
      (names : List Bytes) (status : Status)
      → include_all function included names status ≡ decided success
      → Result names status
  unfolding include_all Result
  success_needs [] status h = (tt, inl (decided_status h))
  success_needs (name ∷ names) status h = elim (Bool-cases (valid_filename name)) [
    | inr e ↦ skip_name name names status e (success_needs names status (rw e at h))
    | inl e ↦ elim (keep_parts (at name) status (include_all function included names) (rw e at h)) [
      | inl (a, later) ↦ grant_name name names status e a (success_needs names success later)
      | inr (a, later) ↦ pass_name name names status a (success_needs names status later)
    ]
  ]

  unread :
      (name : Bytes) (names : List Bytes)
      → valid_filename name ≡ false
      → Some (name ∷ names)
      → Some names
  unread name names e (inl (v, a)) = absurd (cc (e, v))
  unread name names e (inr more) = more

  unmatched :
      (name : Bytes) (names : List Bytes)
      → at name ≡ decided nomatch
      → Some (name ∷ names)
      → Some names
  unmatched name names e (inl (v, a)) = absurd (cc (e, a))
  unmatched name names e (inr more) = more

  success_given :
      (names : List Bytes) (status : Status)
      → All Harmless names
      → (status ≡ success) ⊎ Some names
      → include_all function included names status ≡ decided success
  unfolding include_all keep_status
  success_given [] status all (inl s) = ap decided s
  success_given [] status all (inr impossible) = absurd impossible
  success_given (name ∷ names) status (harmless, all) h = elim (Bool-cases (valid_filename name)) [
    | inr e ↦ rw e (success_given names status all (behind (unread name names e) h))
    | inl e ↦ elim harmless [
      | inl f ↦ absurd (cc (e, f))
      | inr (inl a) ↦ rw (e, a) (success_given names success all (inl refl))
      | inr (inr a) ↦ rw (e, a) (success_given names status all (behind (unmatched name names a) h))
    ]
  ]

  directory_granted :
      (names : List Bytes)
      → include_all function included names nomatch ≡ decided success
      → All Harmless names × Some names
  unfolding Result
  directory_granted names h = let (all, s) = success_needs names nomatch h in (all, started s)

-- A directory that can be opened and that is not the file itself gives success exactly if every file
-- of it that is read gives success or matches nothing, and one gives success; the order in which
-- the names are read does not matter.
pub handle_include-directory :
    (system : System) (included file : Bytes) (function : Bytes → Answer) (names : List Bytes)
    → system.stat included ≡ some (directory (some names))
    → same included file ≡ false
    → (handle_include system included file function ≡ decided success)
      ↔ (All (Harmless function included) names × Some function included names)
unfolding handle_include include_kind
handle_include-directory system included file function names found other =
    rw (other, found)
      (
        directory_granted function included names,
        λ (all, s). success_given function included names nomatch all (inr s),
      )
