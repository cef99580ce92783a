-- ===== src/Server/Config/Load/Printed.antt =====
-- Configuration files that are printed from the words of their lines.
use remctl.Base.{
  ℕ, suc, ◌+◌, ◌-◌, ◌≤◌, ◌<◌, ◌≡◌, refl, ◌∙◌, Bool, true, false, Option, none, some, List, [], ◌∷◌,
  ◌++◌, length, length-append, take-length-append, ltb, le→not_ltb, ◌==◌, Bytes, arith, All, ◌&&◌,
}
use remctl.Util.Vector.{strchr, vector_split_space, vector_join}
use remctl.Util.Vector.Multi.{IsWord}
use remctl.Util.Vector.Words.{All-vector_join, vector_split_multi-vector_join}
use remctl.Server.Acl.Lines.{isspace, is_comment}
use remctl.Server.Rule.{Rule}
use remctl.Server.Config.Options.{Users}
use remctl.Server.Config.Line.{parse_rule}
use remctl.Server.Config.File.{is_partial, has_backslash, is_octet, is_unfinished}
use remctl.Server.Config.File.Lines.{Lines, numbered, glue, physical, joined, fresh}
use remctl.Server.Config.File.Fgets.{is_partial-append}

-- An octet of a word: no white space, no nul and no backslash.
abbrev pub IsPlain : ℕ → Type 0
IsPlain c = (isspace c ≡ false) × ((c == 0) ≡ false) × ((c == 92) ≡ false)

-- The first octet, and the others.
abbrev pub IsPlainWord : Bytes → Type 0
IsPlainWord [] = ⊥
IsPlainWord (c ∷ word) = All IsPlain (c ∷ word)

-- The words of a rule's line: the first does not start a comment.
abbrev pub IsRow : List Bytes → Type 0
IsRow row =
    (4 ≤ length row) × All IsPlainWord row × (is_comment (vector_join row (b' ' ∷ [])) ≡ false)

-- Such a row, or an empty line.
abbrev pub IsRowOrEmpty : List Bytes → Type 0
IsRowOrEmpty [] = Unit {0}
IsRowOrEmpty (word ∷ words) = IsRow (word ∷ words)

-- A line without words is empty.
unfoldable pub print_row : List Bytes → Bytes
unfolding vector_join
print_row row = vector_join row (b' ' ∷ []) ++ 10 ∷ []

unfoldable pub print : List (List Bytes) → Bytes
unfolding print_row
print [] = []
print (row ∷ rows) = print_row row ++ print rows

-- The rules of the rows, behind `n` lines; the empty lines are not counted.
unfoldable pub cons_rule : Option Rule → Option (List Rule) → Option (List Rule)
cons_rule none rules = none
cons_rule (some rule) none = none
cons_rule (some rule) (some rules) = some (rule ∷ rules)

unfoldable pub parse_rows : Users → Bytes → ℕ → List (List Bytes) → Option (List Rule)
unfolding cons_rule
parse_rows users name n [] = some []
parse_rows users name n ([] ∷ rows) = parse_rows users name n rows
parse_rows users name n ((word ∷ words) ∷ rows) =
    cons_rule (parse_rule users name (n + 1) (word ∷ words)) (parse_rows users name (n + 1) rows)

-- An octet of a line: no newline, no nul and no backslash.
abbrev pub IsTextOctet : ℕ → Type 0
IsTextOctet c = ((c == 10) ≡ false) × ((c == 0) ≡ false) × ((c == 92) ≡ false)

pub physical-line :
    (text rest : Bytes)
    → All IsTextOctet text
    → physical (text ++ 10 ∷ rest) ≡ (text ++ 10 ∷ []) ∷ physical rest
unfolding physical glue
physical-line [] rest h = refl
physical-line (c ∷ text) rest ((e, _, _), h) = rw (e, physical-line text rest h) refl

has_backslash-cons : (c : ℕ) (x : Bytes) → 2 ≤ length x → has_backslash (c ∷ x) ≡ has_backslash x
unfolding has_backslash
has_backslash-cons c [] h = absurd (omega arith)
has_backslash-cons c (d ∷ []) h = absurd (omega arith)
has_backslash-cons c (d ∷ e ∷ x) h =
    let long : suc (suc (suc (length x))) - 2 ≡ suc (length x) = omega arith in
    let short : suc (suc (length x)) - 2 ≡ length x = omega arith in rw (long, short) refl

has_backslash-newline :
    (text : Bytes) → All IsTextOctet text → has_backslash (text ++ 10 ∷ []) ≡ false
unfolding has_backslash is_octet
has_backslash-newline [] h = refl
has_backslash-newline (c ∷ []) ((a, b, e), h) = e
has_backslash-newline (c ∷ d ∷ text) (p, h) =
    has_backslash-cons c (d ∷ text ++ 10 ∷ []) (omega (arith, length-append text (10 ∷ [])))
    ∙ has_backslash-newline (d ∷ text) h

is_partial-newline : (text : Bytes) → is_partial (text ++ 10 ∷ []) ≡ false
is_partial-newline text =
    is_partial-append text (10 ∷ []) (omega arith) ∙ unfold is_partial is_octet in refl

IsPlain-octet : (c : ℕ) → IsPlain c → IsTextOctet c
unfolding isspace
IsPlain-octet c (space, nul, backslash) = ground arith

IsPlain-strchr : (c : ℕ) → IsPlain c → strchr (b' ' ∷ 9 ∷ []) c ≡ false
unfolding isspace strchr
IsPlain-strchr c (space, nul, backslash) = ground arith

word_text : (word : Bytes) → All IsPlain word → All IsTextOctet word
word_text [] h = tt
word_text (c ∷ word) (p, h) = (IsPlain-octet c p, word_text word h)

words_text : (words : List Bytes) → All IsPlainWord words → All (All IsTextOctet) words
words_text [] h = tt
words_text ([] ∷ words) (p, h) = elim p [ ]
words_text ((c ∷ word) ∷ words) (p, h) = (word_text (c ∷ word) p, words_text words h)

pub join_text :
    (words : List Bytes) → All IsPlainWord words → All IsTextOctet (vector_join words (b' ' ∷ []))
join_text words h = All-vector_join IsTextOctet b' ' (refl, refl, refl) words (words_text words h)

plain_clean : (word : Bytes) → All IsPlain word → All (λ d. strchr (b' ' ∷ 9 ∷ []) d ≡ false) word
plain_clean [] h = tt
plain_clean (c ∷ word) (p, h) = (IsPlain-strchr c p, plain_clean word h)

plain_words : (words : List Bytes) → All IsPlainWord words → All (IsWord (b' ' ∷ 9 ∷ [])) words
plain_words [] h = tt
plain_words ([] ∷ words) (p, h) = elim p [ ]
plain_words ((c ∷ word) ∷ words) (p, h) = (plain_clean (c ∷ word) p, plain_words words h)

pub split_row :
    (row : List Bytes)
    → All IsPlainWord row
    → vector_split_space (vector_join row (b' ' ∷ [])) ≡ row
unfolding vector_split_space
split_row row h =
    vector_split_multi-vector_join (b' ' ∷ 9 ∷ []) b' ' (unfold strchr in refl) row
      (plain_words row h)

and_false : (b : Bool) → (b && false) ≡ false
and_false true = refl
and_false false = refl

-- A line of text is the next logical line, counted.
pub fresh-text :
    (rest : Option Bytes → ℕ → Lines) (text : Bytes) (n : ℕ)
    → 0 < length text
    → All IsTextOctet text
    → fresh rest (text ++ 10 ∷ []) n ≡ numbered (n + 1) text (rest none (n + 1))
unfolding fresh joined is_unfinished
fresh-text rest text n some_octet h =
    let size : length (text ++ 10 ∷ []) ≡ length text + 1 = length-append text (10 ∷ []) in
    let cut : length text + 1 - 1 ≡ length text = omega arith in
    let long : ltb (length text + 1) 2 ≡ false =
      le→not_ltb (length text + 1) 2 (omega (arith, some_octet)) in
    rw
      (
        is_partial-newline text,
        has_backslash-newline text h,
        size,
        and_false (length text + 1 == 2),
        and_false (ltb 2 (length text + 1)),
        long,
        cut,
        take-length-append text (10 ∷ []),
      )
      refl

pub fresh-empty : (rest : Option Bytes → ℕ → Lines) (n : ℕ) → fresh rest (10 ∷ []) n ≡ rest none n
unfolding fresh
fresh-empty rest n = refl
