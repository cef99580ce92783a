-- ===== src/Util/Vector/Multi.antt =====
-- What a split at sequences of separators gives.
use remctl.Base.{
  ℕ, suc, ◌+◌, ◌-◌, ◌≡◌, refl, inl, inr, true, false, not, ◌&&◌, Bool-cases, List, [], ◌∷◌, ◌++◌,
  length, if◌then◌else◌, Bytes, All, All-append, arith,
}
use remctl.Util.Vector.{
  strchr, store, split_multi_from, vector_split_multi, multi_count_from, split_multi_count,
}

-- A string of at least one octet, none of them a separator.
abbrev pub IsWord : Bytes → Bytes → Type 0
IsWord seps [] = ⊥
IsWord seps (c ∷ string) = All (λ d. strchr seps d ≡ false) (c ∷ string)

module _ (seps : Bytes) where
  abbrev Clean : Bytes → Type 0
  Clean string = All (λ d. strchr seps d ≡ false) string

  store-IsWord :
      (piece : Bytes) (strings : List Bytes)
      → Clean piece
      → All (IsWord seps) strings
      → All (IsWord seps) (store piece strings)
  unfolding store
  store-IsWord [] strings clean h = h
  store-IsWord (c ∷ piece) strings clean h = (clean, h)

  split_multi_from-IsWord :
      (piece string : Bytes) → Clean piece → All (IsWord seps) (split_multi_from seps piece string)
  unfolding split_multi_from
  split_multi_from-IsWord piece [] clean = store-IsWord piece [] clean tt
  split_multi_from-IsWord piece (c ∷ string) clean = elim (Bool-cases (strchr seps c)) [
    | inl e ↦ rw e (
        store-IsWord piece (split_multi_from seps [] string) clean
          (split_multi_from-IsWord [] string tt))
    | inr e ↦ rw e (
        split_multi_from-IsWord (piece ++ c ∷ []) string
          (All-append (λ d. strchr seps d ≡ false) piece (c ∷ []) clean (e, tt)))
  ]

  -- What the loop of the count has, where the split has the piece before it.
  abbrev Matches : ℕ → Bytes → Type 0
  Matches last [] = strchr seps last ≡ true
  Matches last (d ∷ piece) = strchr seps last ≡ false

  store-none :
      (last : ℕ) (piece : Bytes) (j : ℕ)
      → Matches last piece
      → (if strchr seps last then suc j - 1 else suc j) ≡ j + length (store piece [])
  unfolding store
  store-none last [] j h = rw h (omega arith)
  store-none last (d ∷ piece) j h = rw h (omega arith)

  -- The count behind a separator.
  stored :
      (last : ℕ) (piece : Bytes) (j : ℕ)
      → Matches last piece
      → (if true && not (strchr seps last) then suc j + 1 else suc j)
        ≡ suc (j + length (store piece []))
  unfolding store
  stored last [] j h = rw h (omega arith)
  stored last (d ∷ piece) j h = rw h (omega arith)

  length-store :
      (piece : Bytes) (strings : List Bytes)
      → length (store piece strings) ≡ length (store piece []) + length strings
  unfolding store
  length-store [] strings = omega arith
  length-store (d ∷ piece) strings = omega arith

  Matches-append : (c : ℕ) (piece : Bytes) → strchr seps c ≡ false → Matches c (piece ++ c ∷ [])
  Matches-append c [] e = e
  Matches-append c (d ∷ piece) e = e

  multi_count_from_lem :
      (last : ℕ) (piece : Bytes) (j : ℕ) (string : Bytes)
      → Matches last piece
      → multi_count_from seps last (suc j) string ≡ j + length (split_multi_from seps piece string)
  unfolding multi_count_from split_multi_from
  multi_count_from_lem last piece j [] h = store-none last piece j h
  multi_count_from_lem last piece j (c ∷ string) h = elim (Bool-cases (strchr seps c)) [
    | inl e ↦
        rw
          (
            e,
            stored last piece j h,
            multi_count_from_lem c [] (j + length (store piece [])) string e,
            length-store piece (split_multi_from seps [] string),
          )
          (omega arith)
    | inr e ↦ rw e (multi_count_from_lem c (piece ++ c ∷ []) j string (Matches-append c piece e))
  ]

  -- A split at sequences of separators stores strings of at least one octet, none of them a
  -- separator, and as many of them as the pass before the split has counted.
  pub vector_split_multi_lem :
      (string : Bytes)
      → All (IsWord seps) (vector_split_multi seps string)
        × (length (vector_split_multi seps string) ≡ split_multi_count seps string)
  unfolding vector_split_multi split_multi_count
  vector_split_multi_lem [] = (tt, refl)
  vector_split_multi_lem (c ∷ string) = (
    split_multi_from-IsWord [] (c ∷ string) tt,
    elim (Bool-cases (strchr seps c)) [
      | inl e ↦ rw e (omega (arith, multi_count_from_lem c [] 0 string e))
      | inr e ↦ rw e (omega (arith, multi_count_from_lem c (c ∷ []) 0 string e))
    ],
  )
