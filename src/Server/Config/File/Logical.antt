-- ===== src/Server/Config/File/Logical.antt =====
-- The rounds of the inner loop of `read_conf_file`, one by one and all together.
use remctl.Base.{
  ℕ, zero, suc, ◌+◌, ◌-◌, ◌≤◌, ◌<◌, ◌≡◌, refl, sym, ap, ◌∙◌, inl, inr, true, false, Bool-cases,
  Option, none, some, List, [], ◌∷◌, take, length, length-take, lt→ltb, ◌==◌, Bytes, arith,
  All-take,
}
use remctl.Server.Config.File.{
  Reader, Gathered, complete, broken, fgets, is_partial, is_unfinished, make_room, append_read,
  gather,
}
use remctl.Server.Config.File.Lines.{Lines, broken_off, numbered, glue, physical, joined, logical}
use remctl.Server.Config.File.Gather.{NoNul, IsReady, Gathers, onward, Loops, refill}

glue_cons : (c : ℕ) (ls : List Bytes) → (l : Bytes) × (ls' : List Bytes) × (glue c ls ≡ l ∷ ls')
unfolding glue
glue_cons c [] = (c ∷ [], [], refl)
glue_cons c (l ∷ ls) = (c ∷ l, ls, refl)

physical_cons : (c : ℕ) (s : Bytes) → (l : Bytes) × (ls : List Bytes) × (physical (c ∷ s) ≡ l ∷ ls)
unfolding physical
physical_cons c s = elim (Bool-cases (c == 10)) [
  | inl e ↦ rw e (c ∷ [], physical s, refl)
  | inr e ↦ rw e (glue_cons c (physical s))
]

onward-more :
    (b : Bytes) (n c : ℕ) (s : Bytes)
    → onward b n (physical (c ∷ s)) ≡ logical (physical (c ∷ s)) (some b) n
onward-more b n c s = let (l, ls, e) = physical_cons c s in rw e (unfold onward logical in refl)

unfinished_open : (b : Bytes) → is_partial b ≡ true → 2 < length b → is_unfinished b ≡ true
unfolding is_unfinished
unfinished_open b e h = rw (lt→ltb 2 (length b) h, e) refl

joined_unfinished :
    (rest : Option Bytes → ℕ → Lines) (b : Bytes) (n : ℕ)
    → is_unfinished b ≡ true
    → is_partial b ≡ false
    → joined rest b n ≡ rest (some (take (length b - 2) b)) (n + 1)
unfolding joined
joined_unfinished rest b n e e' = rw (e, e') refl

joined_finished :
    (rest : Option Bytes → ℕ → Lines) (b : Bytes) (n : ℕ)
    → is_unfinished b ≡ false
    → joined rest b n ≡ numbered (n + 1) (take (length b - 1) b) (rest none (n + 1))
unfolding joined
joined_finished rest b n e = rw e refl

joined_broken :
    (rest : Option Bytes → ℕ → Lines) (b : Bytes) (n : ℕ)
    → is_unfinished b ≡ true
    → is_partial b ≡ true
    → joined rest b n ≡ broken_off
unfolding joined
joined_broken rest b n e e' = rw (e, e') refl

gather_finished :
    (fuel : ℕ) (r : Reader) → is_unfinished r.buffer ≡ false → gather (suc fuel) r ≡ complete r
unfolding gather
gather_finished fuel r e = rw e refl

gather_unfinished :
    (fuel : ℕ) (r : Reader)
    → is_unfinished r.buffer ≡ true
    → gather (suc fuel) r
      ≡ append_read
          (make_room r)
          (fgets ((make_room r).bufsize - length (make_room r).buffer) (make_room r).unread)
          (gather fuel)
unfolding gather
gather_unfinished fuel r e = rw e refl

long_unfinished : (b : Bytes) → is_unfinished b ≡ true → 2 < length b
unfolding is_unfinished
long_unfinished b e = ground arith

pub onward-nil :
    (b : Bytes) (n : ℕ) (s : Bytes)
    → s ≡ []
    → onward b n (physical s) ≡ joined (logical (physical s)) b n
onward-nil b n s e = rw e (unfold onward physical in refl)

larger :
    (r : Reader)
    → is_partial r.buffer ≡ true
    → make_room r ≡ record r { bufsize = r.bufsize + 1024 }
unfolding make_room
larger r opened = rw opened refl

append_read-end :
    (r : Reader) (size : ℕ) (s : Bytes) (next : Reader → Gathered)
    → s ≡ []
    → append_read r (fgets size s) next ≡ broken
append_read-end r size s next e = rw e (unfold append_read fgets in refl)

-- The buffer ends with a backslash and a newline.
continued :
    (fuel : ℕ)
    → Loops fuel
    → (r : Reader) (lines : Lines) → length r.unread ≤ fuel
    → length r.buffer < r.bufsize
    → IsReady r
    → NoNul r.buffer
    → is_unfinished r.buffer ≡ true
    → is_partial r.buffer ≡ false
    → lines ≡ joined (logical (physical r.unread)) r.buffer r.lineno
    → Gathers r (gather (suc fuel) r) lines
unfolding make_room
continued fuel loops r lines enough fits ready clean e closed h =
    let long = long_unfinished r.buffer e in
    let start = take (length r.buffer - 2) r.buffer in
    let r' = record r { buffer = start; lineno = r.lineno + 1 } in
    let size : length start + 2 ≡ length r.buffer =
      omega (arith, length-take (length r.buffer - 2) r.buffer, long) in
    let room : make_room r ≡ r' = rw closed refl in
    rw
      (
        gather_unfinished fuel r e,
        room,
        h,
        joined_unfinished (logical (physical r.unread)) r.buffer r.lineno e closed,
      )
      (refill fuel loops r' (record { big = ready.big; clean = ready.clean })
        (All-take (λ c. (c == 0) ≡ false) (length r.buffer - 2) r.buffer clean)
        (omega (arith, size, fits)) r.unread refl enough)

-- The buffer is full, or the file ends in the middle of a line.
opened_more :
    (fuel : ℕ)
    → Loops fuel
    → (r : Reader) (s : Bytes) (lines : Lines) → r.unread ≡ s
    → length s ≤ fuel
    → length r.buffer < r.bufsize
    → IsReady r
    → NoNul r.buffer
    → is_unfinished r.buffer ≡ true
    → is_partial r.buffer ≡ true
    → lines ≡ onward r.buffer r.lineno (physical s)
    → Gathers r (gather (suc fuel) r) lines
opened_more fuel loops r [] lines at_end enough fits ready clean e opened h = inl (
  gather_unfinished fuel r e
      ∙ rw (larger r opened) (append_read-end _ _ r.unread (gather fuel) at_end),
  h
      ∙ onward-nil r.buffer r.lineno [] refl
      ∙ joined_broken (logical (physical [])) r.buffer r.lineno e opened,
)
opened_more fuel loops r (c ∷ s) lines more enough fits ready clean e opened h =
    let same : lines ≡ logical (physical r.unread) (some r.buffer) r.lineno =
      h
      ∙ onward-more r.buffer r.lineno c s
      ∙ ap (λ u. logical (physical u) (some r.buffer) r.lineno) (sym more) in
    rw (gather_unfinished fuel r e, larger r opened, same)
      (refill fuel loops (record r { bufsize = r.bufsize + 1024 })
        (record { big = omega (arith, ready.big); clean = ready.clean }) clean (omega (arith, fits))
        r.unread refl (omega (arith, ap length more, enough)))

finished :
    (fuel : ℕ) (r : Reader) (lines : Lines)
    → IsReady r
    → is_unfinished r.buffer ≡ false
    → lines ≡ joined (logical (physical r.unread)) r.buffer r.lineno
    → Gathers r (gather (suc fuel) r) lines
finished fuel r lines ready e h = inr (
  r,
  gather_finished fuel r e,
  h ∙ joined_finished (logical (physical r.unread)) r.buffer r.lineno e,
  ready,
  omega arith,
)

pub gather-Gathers : (fuel : ℕ) → Loops fuel
gather-Gathers zero r lines enough fits ready clean h = absurd (omega (arith, enough))
gather-Gathers (suc fuel) r lines enough fits ready clean h =
    elim (Bool-cases (is_unfinished r.buffer)) [
      | inl e ↦ elim h [
        | inl (closed, same) ↦
            continued fuel (gather-Gathers fuel) r lines (omega (arith, enough)) fits ready clean e
              closed same
        | inr (opened, same, why) ↦
            opened_more fuel (gather-Gathers fuel) r r.unread lines refl (omega (arith, enough))
              fits ready clean e opened same
      ]
      | inr e ↦ elim h [
        | inl (closed, same) ↦ finished fuel r lines ready e same
        | inr (opened, same, inl long) ↦ absurd (cc (e, unfinished_open r.buffer opened long))
        | inr (opened, same, inr last) ↦
            finished fuel r lines ready e (same ∙ onward-nil r.buffer r.lineno r.unread last)
      ]
    ]
