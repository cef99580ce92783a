-- ===== src/Client/V2/Fill.antt =====
-- The inner loop writes a prefix of what is unsent, and as much as fits.
use mathlib.Core.Path.{subst}
use remctl.Base.{
  le→leb, le→not_ltb, lt→not_leb, lt→ltb, leb→le, take_all, length-drop, length-take, drop-drop,
  take-append-drop, length-append, length-htonl, min, ap, ◌∙◌, ℕ, zero, suc, ◌+◌, ◌-◌, ◌≤◌, ◌<◌,
  ◌^◌, ◌≡◌, ◌⊎◌, inl, inr, refl, List, [], ◌∷◌, ◌++◌, append_assoc, arith, length, take, drop, leb,
  Bool-cases, Bytes, htonl, some, Option, none,
}
use remctl.Client.V2.{Filled, prepend, copy, round, fill}
use remctl.Protocol.Wire.{body, FitsWire}

-- What is unsent of the arguments from `iov` on.
abbrev pub unsent : List Bytes → ℕ → Bytes
unsent [] offset = []
unsent (arg ∷ args) zero = body (arg ∷ args)
unsent (arg ∷ args) (suc offset) = drop (suc offset) arg ++ body args

-- The offset lies inside the first argument, or nothing of it is sent.
abbrev pub OffsetInside : List Bytes → ℕ → Type 0
OffsetInside [] offset = offset ≡ 0
OffsetInside (arg ∷ args) offset = (offset ≡ 0) ⊎ (offset < length arg)

-- The loop writes a prefix of `target`, started with `left` octets of room, and goes on while it
-- can.
pub record FillsTo (target : Bytes) (left : ℕ) (f : Filled) : Type 0 where
  pub keeps : f.written ++ unsent f.args f.offset ≡ target
  pub room : length f.written + f.left ≡ left
  pub inside : OffsetInside f.args f.offset
  pub fits : FitsWire f.args
  pub stops :
      (unsent f.args f.offset ≡ []) ⊎ ((f.left < 5) × (f.left < length (unsent f.args f.offset)))

abbrev pub Fills : Bytes → ℕ → Option Filled → Type 0
Fills target left none = ⊥
Fills target left (some f) = FillsTo target left f

pub unsent_done : (args : List Bytes) → unsent args 0 ≡ body args
unfolding body
unsent_done [] = refl
unsent_done (arg ∷ args) = refl

unsent_split :
    (arg : Bytes) (args : List Bytes) (offset : ℕ)
    → 0 < offset
    → unsent (arg ∷ args) offset ≡ drop offset arg ++ body args
unsent_split arg args zero h = absurd (omega arith)
unsent_split arg args (suc offset) h = refl

prepend-Fills :
    (bytes target : Bytes) (left : ℕ) (o : Option Filled)
    → Fills target left o
    → Fills (bytes ++ target) (length bytes + left) (prepend bytes o)
unfolding prepend
prepend-Fills bytes target left none h = h
prepend-Fills bytes target left (some f) h = record {
  keeps = append_assoc bytes f.written (unsent f.args f.offset) ∙ ap (λ t. bytes ++ t) h.keeps;
  room = omega (arith, length-append bytes f.written, h.room);
  inside = h.inside;
  fits = h.fits;
  stops = h.stops;
}

module _ (next : ℕ → Option Filled) (arg : Bytes) (args : List Bytes) where
  -- The argument is copied as a whole.
  copy_whole :
      (offset left : ℕ)
      → offset ≤ length arg
      → length arg - offset ≤ left
      → copy next arg args offset left
        ≡ prepend (drop offset arg) (next (left - (length arg - offset)))
  unfolding copy
  copy_whole offset left inside enough = rw (
    le→leb (length arg - offset) left enough,
    le→not_ltb (offset + (length arg - offset)) (length arg) (omega arith),
    take_all (length arg - offset) (drop offset arg) (omega (arith, length-drop offset arg)),
  )

  copy_part :
      (offset left : ℕ)
      → left < length arg - offset
      → copy next arg args offset left
        ≡ some (record {
          written = take left (drop offset arg);
          args = arg ∷ args;
          offset = offset + left;
          left = left - left;
        })
  unfolding copy
  copy_part offset left short = rw (
    lt→not_leb (length arg - offset) left short,
    lt→ltb (offset + left) (length arg) (omega arith),
  )

  copy-Fills :
      ((room : ℕ) → Fills (body args) room (next room))
      → (offset left : ℕ) → offset ≤ length arg
      → 0 < offset + left ⊎ length arg ≡ 0
      → FitsWire (arg ∷ args)
      → Fills (drop offset arg ++ body args) left (copy next arg args offset left)
  copy-Fills rest offset left inside moves ok = elim (Bool-cases (leb (length arg - offset) left)) [
    | inl e ↦
        (let enough = leb→le (length arg - offset) left e in
          let more = left - (length arg - offset) in
          let size : length (drop offset arg) + more ≡ left =
            omega (arith, length-drop offset arg, enough) in
          rw (copy_whole offset left inside enough) (
            subst
              (λ k. Fills (drop offset arg ++ body args) k (prepend (drop offset arg) (next more)))
              size (prepend-Fills (drop offset arg) (body args) more (next more) (rest more))))
    | inr e ↦
        (let short : left < length arg - offset = ground arith in
          let gap : min left (length (drop offset arg)) ≡ left =
            omega (arith, length-drop offset arg) in
          rw (copy_part offset left short) (record {
            keeps = rw (
              unsent_split arg args (offset + left) (omega arith),
              drop-drop offset left arg,
              ← append_assoc (take left (drop offset arg)) (drop left (drop offset arg))
                  (body args),
              take-append-drop left (drop offset arg),
            );
            room = omega (arith, length-take left (drop offset arg), length-drop offset arg, short);
            inside = inr (omega arith);
            fits = ok;
            stops = inr (
              omega arith,
              rw (unsent_split arg args (offset + left) (omega arith)) (
                  omega (
                    arith,
                    length-append (drop (offset + left) arg) (body args),
                    length-drop (offset + left) arg,
                  )),
            );
          }))
  ]

  abbrev Starts : ℕ → Type 0
  Starts left = (4 ≤ left) × (length arg ≡ 0 ⊎ 5 ≤ left)

  round_start :
      (left : ℕ)
      → Starts left
      → length arg < 2 ^ 32
      → round next arg args 0 left ≡ prepend (htonl (length arg)) (copy next arg args 0 (left - 4))
  unfolding round
  round_start left h small = ground arith

  round_stop :
      (left : ℕ)
      → ¬ Starts left
      → round next arg args 0 left
        ≡ some (record { written = []; args = arg ∷ args; offset = 0; left = left })
  unfolding round
  round_stop left h = ground arith

  Starts-dec : (left : ℕ) → Starts left ⊎ (¬ Starts left × (left < 5) × (left < 4 + length arg))
  Starts-dec left = grind arith

  round_later :
      (offset left : ℕ)
      → round next arg args (suc offset) left ≡ copy next arg args (suc offset) left
  unfolding round
  round_later offset left = ground arith

  round-Fills :
      ((room : ℕ) → Fills (body args) room (next room))
      → (offset left : ℕ) → OffsetInside (arg ∷ args) offset
      → FitsWire (arg ∷ args)
      → Fills (unsent (arg ∷ args) offset) left (round next arg args offset left)
  unfolding body htonl
  round-Fills rest zero left inside ok = elim (Starts-dec left) [
    | inl begins ↦
        (let size : length (htonl (length arg)) + (left - 4) ≡ left =
            omega (arith, length-htonl (length arg), begins) in
          rw (round_start left begins ok.0) (
            subst
              (λ k.
                Fills (unsent (arg ∷ args) 0) k
                  (prepend (htonl (length arg)) (copy next arg args 0 (left - 4))))
              size
              (prepend-Fills (htonl (length arg)) (arg ++ body args) (left - 4)
                (copy next arg args 0 (left - 4))
                (copy-Fills rest 0 (left - 4) (omega arith) (omega (arith, begins)) ok))))
    | inr (stuck, small, tight) ↦ rw (round_stop left stuck) (record {
      keeps = refl;
      room = omega arith;
      inside = inl refl;
      fits = ok;
      stops = inr (small, omega (arith, tight, length-append arg (body args)));
    })
  ]
  round-Fills rest (suc offset) left inside ok =
      rw (round_later offset left)
        (copy-Fills rest (suc offset) left (omega (arith, inside)) (inl (omega arith)) ok)

pub nothing_sent : (args : List Bytes) → OffsetInside args 0
nothing_sent [] = refl
nothing_sent (arg ∷ args) = inl refl

-- The inner loop always returns, and writes as much as fits.
pub fill-Fills :
    (args : List Bytes) (offset left : ℕ)
    → OffsetInside args offset
    → FitsWire args
    → Fills (unsent args offset) left (fill args offset left)
unfolding fill
fill-Fills [] offset left inside ok = record {
  keeps = refl;
  room = omega arith;
  inside = inside;
  fits = tt;
  stops = inl refl;
}
fill-Fills (arg ∷ args) offset left inside ok =
    round-Fills (fill args 0) arg args
      (λ room.
        subst (λ t. Fills t room (fill args 0 room)) (unsent_done args)
          (fill-Fills args 0 room (nothing_sent args) ok.1))
      offset left inside ok
