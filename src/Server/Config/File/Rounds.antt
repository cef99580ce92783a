-- ===== src/Server/Config/File/Rounds.antt =====
-- What a round of the outer loop of `read_conf_file` reads is the next of the logical lines.
use mathlib.Core.Path.{subst}
use remctl.Base.{
  ℕ, suc, ◌+◌, ◌-◌, ◌<◌, ◌≡◌, refl, sym, ap, ◌∙◌, ◌⊎◌, inl, inr, true, false, Bool-cases, Option,
  none, List, [], ◌∷◌, ◌++◌, take, length, length-append, ltb, le→not_ltb, ◌==◌, ◌&&◌, Bytes, arith,
}
use remctl.Server.Config.File.{
  Reader, Gathered, fgets, is_partial, gather, Round, end_of_file, bad_line, short_line, line,
  cut_newline, first_read, start_line, next_line,
}
use remctl.Server.Config.File.Lines.{
  Lines, no_line, broken_off, numbered, physical, joined, fresh, logical, extend,
}
use remctl.Server.Config.File.Fgets.{Takes, fgets-Takes}
use remctl.Server.Config.File.Gather.{
  NoNul, c_string_lem, NoNul-split, IsReady, Gathers, onward, HasLines,
}
use remctl.Server.Config.File.Logical.{onward-nil, gather-Gathers}

-- The round and the lines end together, or the round has the first of the lines; less than `size`
-- octets are left.
abbrev pub Follows : ℕ → Round → Lines → Type 0
Follows size round lines =
    ((round ≡ end_of_file) × (lines ≡ no_line))
    ⊎ ((round ≡ bad_line) × (lines ≡ broken_off))
    ⊎ ((r : Reader) × (round ≡ short_line r)
        × (lines ≡ logical (physical r.unread) none r.lineno)
        × IsReady r
        × (length r.unread < size))
    ⊎ ((r : Reader) × (round ≡ line r)
        × (lines ≡ numbered r.lineno r.buffer (logical (physical r.unread) none r.lineno))
        × IsReady r
        × (length r.unread < size))

cut_newline-Follows :
    (size : ℕ) (r : Reader) (gathered : Gathered) (lines : Lines)
    → length r.unread < size
    → Gathers r gathered lines
    → Follows size (cut_newline gathered) lines
unfolding cut_newline
cut_newline-Follows size r gathered lines less (inl (e, h)) = rw e (inr (inl (refl, h)))
cut_newline-Follows size r gathered lines less (inr (r', e, h, ready, fewer)) = rw e (
    inr (
      inr (
        inr (
          record r' { buffer = take (length r'.buffer - 1) r'.buffer; lineno = r'.lineno + 1 },
          refl,
          h,
          record { big = ready.big; clean = ready.clean },
          omega (arith, less, fewer),
        ))))

module _ (size : ℕ) (r : Reader) (lines : Lines) (less : length r.unread < size)
    (fits : length r.buffer < r.bufsize) (ready : IsReady r) (clean : NoNul r.buffer) where
  gathered : HasLines r lines → Follows size (cut_newline (gather (suc (length r.unread)) r)) lines
  gathered h =
      cut_newline-Follows size r (gather (suc (length r.unread)) r) lines less
        (gather-Gathers (suc (length r.unread)) r lines (omega arith) fits ready clean h)

  whole :
      lines ≡ joined (logical (physical r.unread)) r.buffer r.lineno
      → (is_partial r.buffer ≡ false) ⊎ ((is_partial r.buffer ≡ true) × (r.unread ≡ []))
      → HasLines r lines
  whole same (inl closed) = inl (closed, same)
  whole same (inr (opened, last)) =
      inr (opened, same ∙ sym (onward-nil r.buffer r.lineno r.unread last), inr last)

  -- A whole line, or the last one.
  first_read-whole :
      lines ≡ fresh (logical (physical r.unread)) r.buffer r.lineno
      → (is_partial r.buffer ≡ false) ⊎ ((is_partial r.buffer ≡ true) × (r.unread ≡ []))
      → Follows size (first_read r) lines
  unfolding first_read fresh
  first_read-whole h why = elim (Bool-cases (length r.buffer == 2 && is_partial r.buffer)) [
    | inl e ↦ rw (e, h) (rw e (inr (inl (refl, refl))))
    | inr e ↦ elim (Bool-cases (ltb (length r.buffer) 2)) [
      | inl e' ↦ rw (e, e', h) (rw (e, e') (inr (inr (inl (r, refl, refl, ready, less)))))
      | inr e' ↦ rw (e, e') (gathered (whole (rw (e, e', fresh) at h) why))
    ]
  ]

  -- The buffer is full.
  first_read-full :
      lines ≡ onward r.buffer r.lineno (physical r.unread)
      → is_partial r.buffer ≡ true
      → 2 < length r.buffer
      → Follows size (first_read r) lines
  unfolding first_read
  first_read-full h opened long =
      let short : ltb (length r.buffer) 2 ≡ false = le→not_ltb (length r.buffer) 2 (omega arith) in
      let two : (length r.buffer == 2) ≡ false = ground arith in
      rw (two, short) (gathered (inr (opened, h, inl long)))

fresh_long :
    (rest : Option Bytes → ℕ → Lines) (x : Bytes) (n : ℕ)
    → 2 < length x
    → fresh rest x n ≡ joined rest x n
unfolding fresh
fresh_long rest x n h =
    let short : ltb (length x) 2 ≡ false = le→not_ltb (length x) 2 (omega arith) in
    let two : (length x == 2) ≡ false = ground arith in rw (two, short) refl

fresh-extend :
    (x : Bytes) (n : ℕ) (ls : List Bytes)
    → 2 < length x
    → logical (extend x ls) none n ≡ onward x n ls
fresh-extend x n [] h = unfold extend logical onward in fresh_long (logical []) x n h
fresh-extend x n (l ∷ ls) h =
    unfold extend logical onward in
    fresh_long (logical ls) (x ++ l) n (omega (arith, h, length-append x l))

-- What the first call of a round takes.
module _ (r : Reader) (ready : IsReady r) (s x y : Bytes) (at_start : r.unread ≡ s)
    (t : Takes (r.bufsize - 1) s x y) where
  abbrev started : Reader
  started = record r { buffer = x; unread = y }

  shorter : length y < length s
  shorter = omega (arith, ap length t.splits, length-append x y, t.some_octet)

  logical-whole :
      physical s ≡ x ∷ physical y
      → logical (physical s) none r.lineno ≡ fresh (logical (physical y)) x r.lineno
  logical-whole e = rw e (unfold logical in refl)

  logical-last : physical s ≡ extend x (physical y) → y ≡ [] → physical s ≡ x ∷ physical y
  logical-last e last = e ∙ rw last (unfold physical extend in refl)

  first_read-Follows :
      NoNul x
      → NoNul y
      → Follows (length s) (first_read started) (logical (physical s) none r.lineno)
  first_read-Follows clean clean_y =
      let lines = logical (physical s) none r.lineno in
      let ready' : IsReady started = record { big = ready.big; clean = clean_y } in
      let fits : length x < r.bufsize = omega (arith, t.bounded, ready.big) in
      elim t.piece [
        | inl (closed, e) ↦
            first_read-whole (length s) started lines shorter fits ready' clean (logical-whole e)
              (inl closed)
        | inr (opened, e, inr last) ↦
            first_read-whole (length s) started lines shorter fits ready' clean
              (logical-whole (logical-last e last)) (inr (opened, last))
        | inr (opened, e, inl full) ↦
            first_read-full (length s) started lines shorter fits ready' clean
              (ap (λ ls. logical ls none r.lineno) e
                ∙ fresh-extend x r.lineno (physical y) (omega (arith, full, ready.big)))
              opened (omega (arith, full, ready.big))
      ]

start_line-Follows :
    (r : Reader) (s : Bytes)
    → r.unread ≡ s
    → IsReady r
    → Follows (length s) (start_line r (fgets r.bufsize s)) (logical (physical s) none r.lineno)
start_line-Follows r [] e ready =
    inl (unfold start_line fgets in refl, unfold logical physical in refl)
start_line-Follows r (c ∷ s) e ready =
    let (x, y, read, t) = fgets-Takes r.bufsize c s (omega (arith, ready.big)) in
    let (clean_x, clean_y) = NoNul-split x y (subst NoNul t.splits (subst NoNul e ready.clean)) in
    rw read (
      unfold start_line in
      rw (c_string_lem x clean_x) (first_read-Follows r ready (c ∷ s) x y e t clean_x clean_y))

-- A round of the outer loop reads the next of the logical lines.
pub next_line-Follows :
    (r : Reader)
    → IsReady r
    → Follows (length r.unread) (next_line r) (logical (physical r.unread) none r.lineno)
unfolding next_line
next_line-Follows r ready = start_line-Follows r r.unread refl ready
