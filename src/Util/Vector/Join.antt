-- ===== src/Util/Vector/Join.antt =====
-- The memory of a joined string, and the split of it.
use remctl.Base.{
  ℕ, suc, ◌+◌, ◌-◌, ◌*◌, ◌≡◌, ◌≢◌, refl, sym, ap, ◌∙◌, false, List, [], ◌∷◌, ◌++◌, length,
  length-append, ◌==◌, Bytes, All, append_assoc, append-nil, ==_refl, arith,
}
use remctl.Util.Vector.{split_from, vector_split, vector_join, join_more, total, join_size}
use remctl.Util.Vector.Split.{Lacks}

times_suc : (n m : ℕ) → suc n * m ≡ m + n * m
times_suc n m = grind arith

length-join_more :
    (vector : List Bytes) (separator : Bytes)
    → length (join_more vector separator) ≡ total vector + length vector * length separator
unfolding join_more total
length-join_more [] separator = omega arith
length-join_more (string ∷ vector) separator =
    rw
      (
        length-append (separator ++ string) (join_more vector separator),
        length-append separator string,
        length-join_more vector separator,
        times_suc (length vector) (length separator),
      )
      (omega arith)

less_one : (string : Bytes) (vector : List Bytes) → length (string ∷ vector) - 1 ≡ length vector
less_one string vector = omega arith

-- The string that a vector is joined to and its nul take exactly the size that is allocated.
pub length-vector_join :
    (vector : List Bytes) (separator : Bytes)
    → suc (length (vector_join vector separator)) ≡ join_size vector separator
unfolding vector_join join_size total
length-vector_join [] separator = omega arith
length-vector_join (string ∷ vector) separator =
    rw
      (
        length-append string (join_more vector separator),
        length-join_more vector separator,
        less_one string vector,
      )
      (omega arith)

unequal_test : (c separator : ℕ) → c ≢ separator → (c == separator) ≡ false
unequal_test c separator h = ground arith

-- A split takes the octets that are no separator into its first part.
split_from-append :
    (separator : ℕ) (piece string rest : Bytes)
    → Lacks separator string
    → split_from separator piece (string ++ rest) ≡ split_from separator (piece ++ string) rest
unfolding split_from
split_from-append separator piece [] rest h =
    ap (λ p. split_from separator p rest) (sym (append-nil piece))
split_from-append separator piece (c ∷ string) rest (p, h) = rw (unequal_test c separator p) (
    split_from-append separator (piece ++ c ∷ []) string rest h
    ∙ ap (λ q. split_from separator q rest) (append_assoc piece (c ∷ []) string))

split_from-join_more :
    (separator : ℕ) (piece : Bytes) (vector : List Bytes)
    → All (Lacks separator) vector
    → split_from separator piece (join_more vector (separator ∷ [])) ≡ piece ∷ vector
unfolding split_from join_more
split_from-join_more separator piece [] h = refl
split_from-join_more separator piece (string ∷ vector) (p, h) = rw (==_refl separator) (
    ap (λ v. piece ∷ v)
      (split_from-append separator [] string (join_more vector (separator ∷ [])) p
        ∙ split_from-join_more separator string vector h))

-- A vector of at least one string is split again into the same strings, where none of them has the
-- separator.
pub vector_split-vector_join :
    (separator : ℕ) (string : Bytes) (vector : List Bytes)
    → All (Lacks separator) (string ∷ vector)
    → vector_split separator (vector_join (string ∷ vector) (separator ∷ [])) ≡ string ∷ vector
unfolding vector_split vector_join
vector_split-vector_join separator string vector (p, h) =
    split_from-append separator [] string (join_more vector (separator ∷ [])) p
    ∙ split_from-join_more separator string vector h
