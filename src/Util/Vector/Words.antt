-- ===== src/Util/Vector/Words.antt =====
-- Words joined by a separator, and split again at sequences of separators.
use remctl.Base.{
  ℕ, ◌≡◌, refl, ap, ◌∙◌, true, false, List, [], ◌∷◌, ◌++◌, append-nil, append_assoc, Bytes, All,
  All-append,
}
use remctl.Util.Vector.{strchr, store, split_multi_from, vector_split_multi, join_more, vector_join}
use remctl.Util.Vector.Multi.{IsWord}

module _ (P : ℕ → Type 0) (separator : ℕ) (h : P separator) where
  All-join_more :
      (words : List Bytes) → All (All P) words → All P (join_more words (separator ∷ []))
  unfolding join_more
  All-join_more [] all = tt
  All-join_more (word ∷ words) (p, all) =
      (h, All-append P word (join_more words (separator ∷ [])) p (All-join_more words all))

  pub All-vector_join :
      (words : List Bytes) → All (All P) words → All P (vector_join words (separator ∷ []))
  unfolding vector_join
  All-vector_join [] all = tt
  All-vector_join (word ∷ words) (p, all) =
      All-append P word (join_more words (separator ∷ [])) p (All-join_more words all)

module _ (seps : Bytes) where
  split_word :
      (piece word rest : Bytes)
      → All (λ d. strchr seps d ≡ false) word
      → split_multi_from seps piece (word ++ rest) ≡ split_multi_from seps (piece ++ word) rest
  unfolding split_multi_from
  split_word piece [] rest h = rw append-nil refl
  split_word piece (c ∷ word) rest (e, h) = rw e (
      split_word (piece ++ c ∷ []) word rest h
      ∙ ap (λ s. split_multi_from seps s rest) (append_assoc piece (c ∷ []) word))

  IsWord-clean : (word : Bytes) → IsWord seps word → All (λ d. strchr seps d ≡ false) word
  IsWord-clean [] h = elim h [ ]
  IsWord-clean (c ∷ word) h = h

  store-word :
      (word : Bytes) (words : List Bytes) → IsWord seps word → store word words ≡ word ∷ words
  unfolding store
  store-word [] words h = elim h [ ]
  store-word (c ∷ word) words h = refl

  module _ (separator : ℕ) (is_separator : strchr seps separator ≡ true) where
    split_more :
        (word : Bytes) (words : List Bytes)
        → IsWord seps word
        → All (IsWord seps) words
        → split_multi_from seps word (join_more words (separator ∷ [])) ≡ word ∷ words
    unfolding split_multi_from join_more
    split_more word [] h all = store-word word [] h
    split_more word (next ∷ words) h (h', all) = rw is_separator (
        store-word word _ h
        ∙ ap (λ ws. word ∷ ws)
            (split_word [] next (join_more words (separator ∷ [])) (IsWord-clean next h')
              ∙ split_more next words h' all))

    -- Words, which are not empty and have no separator, are joined by a separator and split into
    -- the same words again.
    pub vector_split_multi-vector_join :
        (words : List Bytes)
        → All (IsWord seps) words
        → vector_split_multi seps (vector_join words (separator ∷ [])) ≡ words
    unfolding vector_split_multi vector_join
    vector_split_multi-vector_join [] all = unfold split_multi_from store in refl
    vector_split_multi-vector_join (word ∷ words) (h, all) =
        split_word [] word (join_more words (separator ∷ [])) (IsWord-clean word h)
        ∙ split_more word words h all
