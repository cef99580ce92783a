-- ===== src/Server/Config/File/Fgets.antt =====
-- What one `fgets` takes of the lines of a file.
use remctl.Base.{
  ℕ, zero, suc, ◌-◌, ◌≤◌, ◌<◌, ◌≡◌, refl, ap, ◌∙◌, ◌⊎◌, inl, inr, true, false, Bool-cases, some,
  List, [], ◌∷◌, ◌++◌, length, ◌==◌, Bytes, arith,
}
use remctl.Server.Config.File.{take_line, fgets, is_partial, is_octet}
use remctl.Server.Config.File.Lines.{glue, physical, extend}

pub is_partial-cons : (c : ℕ) (x : Bytes) → 0 < length x → is_partial (c ∷ x) ≡ is_partial x
unfolding is_partial
is_partial-cons c [] h = absurd (omega arith)
is_partial-cons c (d ∷ x) h =
    let long : suc (suc (length x)) - 1 ≡ suc (length x) = omega arith in
    let short : suc (length x) - 1 ≡ length x = omega arith in rw (long, short) refl

pub is_partial-append : (b x : Bytes) → 0 < length x → is_partial (b ++ x) ≡ is_partial x
is_partial-append [] x h = refl
is_partial-append (c ∷ []) x h = is_partial-cons c x h
is_partial-append (c ∷ d ∷ b) x h =
    is_partial-cons c (d ∷ b ++ x) (omega arith) ∙ is_partial-append (d ∷ b) x h

-- A piece `x` of `s`, of `n` octets at most, with `y` behind it: a whole line, or a part of one
-- that is cut off by the bound or by the end of the file.
pub record Takes (n : ℕ) (s x y : Bytes) : Type 0 where
  pub some_octet : 0 < length x
  pub bounded : length x ≤ n
  pub splits : s ≡ x ++ y
  pub piece :
      ((is_partial x ≡ false) × (physical s ≡ x ∷ physical y))
      ⊎ ((is_partial x ≡ true) × (physical s ≡ extend x (physical y)) × ((length x ≡ n) ⊎ (y ≡ [])))

glue-extend : (c : ℕ) (ls : List Bytes) → glue c ls ≡ extend (c ∷ []) ls
unfolding glue extend
glue-extend c [] = refl
glue-extend c (l ∷ ls) = refl

glue-extend-cons : (c : ℕ) (x : Bytes) (ls : List Bytes) → glue c (extend x ls) ≡ extend (c ∷ x) ls
unfolding glue extend
glue-extend-cons c x [] = refl
glue-extend-cons c x (l ∷ ls) = refl

physical-glue : (c : ℕ) (s : Bytes) → (c == 10) ≡ false → physical (c ∷ s) ≡ glue c (physical s)
unfolding physical
physical-glue c s e = rw e refl

Takes-newline : (n c : ℕ) (s : Bytes) → (c == 10) ≡ true → Takes (suc n) (c ∷ s) (c ∷ []) s
unfolding physical is_partial is_octet
Takes-newline n c s e = record {
  some_octet = omega arith;
  bounded = omega arith;
  splits = refl;
  piece = inl (rw e refl, rw e refl);
}

Takes-cut :
    (n c : ℕ) (s : Bytes)
    → (c == 10) ≡ false
    → (n ≡ 0) ⊎ (s ≡ [])
    → Takes (suc n) (c ∷ s) (c ∷ []) s
unfolding is_partial is_octet
Takes-cut n c s e h = record {
  some_octet = omega arith;
  bounded = omega arith;
  splits = refl;
  piece = inr (
    rw e refl,
    physical-glue c s e ∙ glue-extend c (physical s),
    elim h [ inl z ↦ inl (omega arith) | inr z ↦ inr z ],
  );
}

Takes-cons :
    (n c : ℕ) (s x y : Bytes) → (c == 10) ≡ false → Takes n s x y → Takes (suc n) (c ∷ s) (c ∷ x) y
unfolding glue
Takes-cons n c s x y e t = record {
  some_octet = omega arith;
  bounded = omega (arith, t.bounded);
  splits = ap (λ z. c ∷ z) t.splits;
  piece = elim t.piece [
    | inl (closed, lines) ↦
        inl (is_partial-cons c x t.some_octet ∙ closed, physical-glue c s e ∙ ap (glue c) lines)
    | inr (opened, lines, why) ↦ inr (
      is_partial-cons c x t.some_octet ∙ opened,
      physical-glue c s e ∙ ap (glue c) lines ∙ glue-extend-cons c x (physical y),
      elim why [ inl full ↦ inl (omega arith) | inr last ↦ inr last ],
    )
  ];
}

pub take_line-Takes :
    (n c : ℕ) (s : Bytes)
    → Takes (suc n) (c ∷ s) (take_line (suc n) (c ∷ s)).0 (take_line (suc n) (c ∷ s)).1
unfolding take_line
take_line-Takes zero c s = elim (Bool-cases (c == 10)) [
  | inl e ↦ rw e (Takes-newline 0 c s e)
  | inr e ↦ rw e (Takes-cut 0 c s e (inl refl))
]
take_line-Takes (suc n) c [] = elim (Bool-cases (c == 10)) [
  | inl e ↦ rw e (Takes-newline (suc n) c [] e)
  | inr e ↦ rw e (Takes-cut (suc n) c [] e (inr refl))
]
take_line-Takes (suc n) c (d ∷ s) = elim (Bool-cases (c == 10)) [
  | inl e ↦ rw e (Takes-newline (suc n) c (d ∷ s) e)
  | inr e ↦ rw e (
      Takes-cons (suc n) c (d ∷ s) (take_line (suc n) (d ∷ s)).0 (take_line (suc n) (d ∷ s)).1 e
        (take_line-Takes n d s))
]

-- A call with room for an octet and the nul, before the end of the file.
pub fgets-Takes :
    (size c : ℕ) (s : Bytes)
    → 2 ≤ size
    → (x : Bytes) × (y : Bytes) × (fgets size (c ∷ s) ≡ some (x, y)) × Takes (size - 1) (c ∷ s) x y
unfolding fgets
fgets-Takes size c s h =
    let k = size - 2 in
    let e : size - 1 ≡ suc k = omega arith in
    rw e ((take_line (suc k) (c ∷ s)).0, (take_line (suc k) (c ∷ s)).1, refl, take_line-Takes k c s)
