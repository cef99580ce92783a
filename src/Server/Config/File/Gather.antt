-- ===== src/Server/Config/File/Gather.antt =====
-- What the inner loop of `read_conf_file` puts together is a logical line.
use mathlib.Core.List.{append_assoc}
use mathlib.Core.Path.{subst}
use remctl.Base.{
  ℕ, ◌+◌, ◌-◌, ◌≤◌, ◌<◌, ◌≡◌, refl, sym, ap, ◌∙◌, ◌⊎◌, inl, inr, true, false, none, some, List, [],
  ◌∷◌, ◌++◌, take, length, length-append, ◌==◌, Bytes, arith, All, All-append,
}
use remctl.Server.Config.File.{
  Reader, Gathered, complete, broken, c_string, fgets, is_partial, append_read, gather,
}
use remctl.Server.Config.File.Lines.{Lines, broken_off, numbered, physical, joined, logical, extend}
use remctl.Server.Config.File.Fgets.{Takes, fgets-Takes, is_partial-append}

-- No octet of the file is nul.
abbrev pub NoNul : Bytes → Type 0
NoNul string = All (λ c. (c == 0) ≡ false) string

pub c_string_lem : (string : Bytes) → NoNul string → c_string string ≡ string
unfolding c_string
c_string_lem [] h = refl
c_string_lem (c ∷ string) (e, h) = rw e (ap (λ s. c ∷ s) (c_string_lem string h))

pub NoNul-split : (x y : Bytes) → NoNul (x ++ y) → NoNul x × NoNul y
NoNul-split [] y h = (tt, h)
NoNul-split (c ∷ x) y (e, h) = ((e, (NoNul-split x y h).0), (NoNul-split x y h).1)

-- The state of the loops between two calls of `fgets`.
pub record IsReady (r : Reader) : Type 0 where
  pub big : 1024 ≤ r.bufsize
  pub clean : NoNul r.unread

-- The loop ends with an error, where the lines do, or with the first line.
abbrev pub Gathers : Reader → Gathered → Lines → Type 0
Gathers r gathered lines =
    ((gathered ≡ broken) × (lines ≡ broken_off))
    ⊎ ((r' : Reader) × (gathered ≡ complete r')
        × (lines
            ≡ numbered (r'.lineno + 1) (take (length r'.buffer - 1) r'.buffer)
                (logical (physical r'.unread) none (r'.lineno + 1)))
        × IsReady r'
        × (length r'.unread ≤ length r.unread))

-- The lines where the buffer has the start of a line.
unfoldable pub onward : Bytes → ℕ → List Bytes → Lines
unfolding joined
onward b n [] = joined (logical []) b n
onward b n (string ∷ strings) = joined (logical strings) (b ++ string) n

-- The lines where the buffer ends with a newline, or does not.
abbrev pub HasLines : Reader → Lines → Type 0
HasLines r lines =
    ((is_partial r.buffer ≡ false)
      × (lines ≡ joined (logical (physical r.unread)) r.buffer r.lineno))
    ⊎ ((is_partial r.buffer ≡ true)
        × (lines ≡ onward r.buffer r.lineno (physical r.unread))
        × ((2 < length r.buffer) ⊎ (r.unread ≡ [])))

pub onward-extend :
    (b x : Bytes) (n : ℕ) (ls : List Bytes)
    → logical (extend x ls) (some b) n ≡ onward (b ++ x) n ls
unfolding onward extend logical
onward-extend b x n [] = refl
onward-extend b x n (l ∷ ls) = ap (λ s. joined (logical ls) s n) (sym (append_assoc b x l))

-- The statement for some fuel.
abbrev pub Loops : ℕ → Type 0
Loops fuel =
    (r : Reader) (lines : Lines)
    → length r.unread < fuel
    → length r.buffer < r.bufsize
    → IsReady r
    → NoNul r.buffer
    → HasLines r lines
    → Gathers r (gather fuel r) lines

-- One more `fgets`, behind the start of a line.
module _ (fuel : ℕ) (loops : Loops fuel) (r : Reader) (ready : IsReady r) (clean : NoNul r.buffer)
    (room : length r.buffer + 3 ≤ r.bufsize) where
  -- The buffer after the call.
  abbrev filled : Bytes → Bytes → Reader
  filled x y = record r { buffer = r.buffer ++ x; unread = y }

  has_lines :
      (s x y : Bytes)
      → (k : ℕ) → k + 1 ≡ r.bufsize - length r.buffer
      → 1022 < k + length r.buffer
      → Takes k s x y
      → HasLines (filled x y) (logical (physical s) (some r.buffer) r.lineno)
  unfolding logical
  has_lines s x y k size wide t = elim t.piece [
    | inl (closed, lines) ↦ inl (
      is_partial-append r.buffer x t.some_octet ∙ closed,
      ap (λ ls. logical ls (some r.buffer) r.lineno) lines,
    )
    | inr (opened, lines, why) ↦ inr (
      is_partial-append r.buffer x t.some_octet ∙ opened,
      ap (λ ls. logical ls (some r.buffer) r.lineno) lines
          ∙ onward-extend r.buffer x r.lineno (physical y),
      elim why [
        | inl full ↦ inl (omega (arith, full, length-append r.buffer x))
        | inr last ↦ inr last
      ],
    )
  ]

  refill_some :
      (s x y : Bytes)
      → (k : ℕ) → k + 1 ≡ r.bufsize - length r.buffer
      → Takes k s x y
      → NoNul s
      → length s ≤ fuel
      → Gathers
          (record r { unread = s })
          (append_read r (some (x, y)) (gather fuel))
          (logical (physical s) (some r.buffer) r.lineno)
  unfolding append_read
  refill_some s x y k size t whole enough =
      let (clean_x, clean_y) = NoNul-split x y (subst NoNul t.splits whole) in
      let clean' = All-append (λ c. (c == 0) ≡ false) r.buffer x clean clean_x in
      let shorter : length x + length y ≡ length s =
        sym (length-append x y) ∙ ap length (sym t.splits) in
      let same_buffer = c_string_lem (r.buffer ++ x) clean' in
      let done =
        loops (filled x y) (logical (physical s) (some r.buffer) r.lineno)
          (omega (arith, shorter, t.some_octet, enough))
          (omega (arith, length-append r.buffer x, t.bounded, size, room))
          (record { big = ready.big; clean = clean_y }) clean'
          (has_lines s x y k size (omega (arith, size, room, ready.big)) t) in
      rw same_buffer (elim done [
        | inl h ↦ inl h
        | inr (r', e, lines, ready', less) ↦
            inr (r', e, lines, ready', omega (arith, less, shorter))
      ])

  pub refill :
      (s : Bytes)
      → r.unread ≡ s
      → length s ≤ fuel
      → Gathers r
          (append_read r (fgets (r.bufsize - length r.buffer) s) (gather fuel))
          (logical (physical s) (some r.buffer) r.lineno)
  refill [] e enough = inl (unfold append_read fgets in refl, unfold logical physical in refl)
  refill (c ∷ s) e enough =
      let size = r.bufsize - length r.buffer in
      let (x, y, read, t) = fgets-Takes size c s (omega (arith, room)) in
      rw read (
        subst
          (λ u.
            Gathers (record r { unread = u }) (append_read r (some (x, y)) (gather fuel))
              (logical (physical (c ∷ s)) (some r.buffer) r.lineno))
          (sym e)
          (refill_some (c ∷ s) x y (size - 1) (omega (arith, room)) t (subst NoNul e ready.clean)
            enough))
