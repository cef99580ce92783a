-- ===== src/Util/Vector/Split.antt =====
-- What a split gives: its parts, their number, and the string they come from.
use remctl.Base.{
  ℕ, suc, ◌≡◌, ◌≢◌, refl, sym, ap, inl, inr, false, Bool-cases, [], ◌∷◌, ◌++◌, length, ◌==◌, Bytes,
  All, All-append, append_assoc, ==_iff, arith,
}
use remctl.Util.Vector.{count_from, split_count, split_from, vector_split, vector_join, join_more}

length-split_from :
    (separator : ℕ) (piece string : Bytes)
    → length (split_from separator piece string) ≡ count_from separator string
unfolding split_from count_from
length-split_from separator piece [] = refl
length-split_from separator piece (c ∷ string) = elim (Bool-cases (c == separator)) [
  | inl e ↦ rw e (ap suc (length-split_from separator [] string))
  | inr e ↦ rw e (length-split_from separator (piece ++ c ∷ []) string)
]

join_more-split_from :
    (separator : ℕ) (piece string : Bytes)
    → join_more (split_from separator piece string) (separator ∷ []) ≡ separator ∷ (piece ++ string)
unfolding split_from join_more
join_more-split_from separator piece [] = refl
join_more-split_from separator piece (c ∷ string) = elim (Bool-cases (c == separator)) [
  | inl e ↦ rw (e, join_more-split_from separator [] string, sym ((==_iff c separator).0 e)) refl
  | inr e ↦
      rw
        (
          e,
          join_more-split_from separator (piece ++ c ∷ []) string,
          append_assoc piece (c ∷ []) string,
        )
        refl
]

join-split_from :
    (separator : ℕ) (piece string : Bytes)
    → vector_join (split_from separator piece string) (separator ∷ []) ≡ piece ++ string
unfolding split_from vector_join join_more
join-split_from separator piece [] = refl
join-split_from separator piece (c ∷ string) = elim (Bool-cases (c == separator)) [
  | inl e ↦ rw (e, join_more-split_from separator [] string, sym ((==_iff c separator).0 e)) refl
  | inr e ↦
      rw (e, join-split_from separator (piece ++ c ∷ []) string, append_assoc piece (c ∷ []) string)
        refl
]

unequal : (c separator : ℕ) → (c == separator) ≡ false → c ≢ separator
unequal c separator e q = ground arith

abbrev pub Lacks : ℕ → Bytes → Type 0
Lacks separator string = All (λ c. c ≢ separator) string

parts-Lacks :
    (separator : ℕ) (piece string : Bytes)
    → Lacks separator piece
    → All (Lacks separator) (split_from separator piece string)
unfolding split_from
parts-Lacks separator piece [] h = (h, tt)
parts-Lacks separator piece (c ∷ string) h = elim (Bool-cases (c == separator)) [
  | inl e ↦ rw e (h, parts-Lacks separator [] string tt)
  | inr e ↦ rw e (
      parts-Lacks separator (piece ++ c ∷ []) string
        (All-append (λ d. d ≢ separator) piece (c ∷ []) h (unequal c separator e, tt)))
]

-- A string that is split at a separator is joined again by it, none of the parts has the separator,
-- and there are as many parts as the pass before the split has counted.
pub vector_split_lem :
    (separator : ℕ) (string : Bytes)
    → (vector_join (vector_split separator string) (separator ∷ []) ≡ string)
      × All (Lacks separator) (vector_split separator string)
      × (length (vector_split separator string) ≡ split_count separator string)
unfolding vector_split split_count
vector_split_lem separator string = (
  join-split_from separator [] string,
  parts-Lacks separator [] string tt,
  length-split_from separator [] string,
)
