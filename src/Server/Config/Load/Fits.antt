-- ===== src/Server/Config/Load/Fits.antt =====
-- The buffer of `read_conf_file` of server/config.c, whose size is an int there, while a file is read.
use mathlib.Core.Path.{subst}
use remctl.Base.{
  ℕ, zero, suc, ◌+◌, ◌-◌, ◌≤◌, ◌≡◌, refl, sym, ap, ◌⊎◌, inl, inr, Bool-cases, Option, none, some,
  [], ◌∷◌, take, length, ltb, ◌&&◌, ◌==◌, Bytes, arith,
}
use remctl.Server.Config.File.{
  Reader, Gathered, complete, broken, no_fuel, Round, c_string, fgets, is_partial, short_line, line,
  cut_newline, first_read, start_line, next_line,
}
use remctl.Server.Config.File.Lines.{physical, logical}
use remctl.Server.Config.File.Fgets.{Takes, fgets-Takes}
use remctl.Server.Config.File.Gather.{NoNul, c_string_lem, NoNul-split}
use remctl.Server.Config.Load.{Config, Files, start_reading, read_conf_file}
use remctl.Server.Config.Load.Logical.{load_lines, read_conf_file-load_lines}
use remctl.Server.Config.File.Fits.{
  int_max, GatherFits, Between, Within, taken-Within, gather-Keeps,
}

-- A call of `fgets` at the start of a line, and the inner loop behind it.
abbrev StartFits : Reader → Option (Bytes × Bytes) → Type 0
StartFits r none = Unit
StartFits r (some (chunk, rest)) =
    GatherFits (suc (length rest)) (record r { buffer = c_string chunk; unread = rest })

-- In each round of the outer loop, the size of the buffer fits an int.
abbrev pub RoundsFit : ℕ → Reader → Type 0
RoundsFit zero r = Unit
RoundsFit (suc fuel) r =
    StartFits r (fgets r.bufsize r.unread)
    × ((r' : Reader) → (next_line r ≡ line r') ⊎ (next_line r ≡ short_line r') → RoundsFit fuel r')

module _ (whole : ℕ) (small : whole + 2049 ≤ int_max) where
  -- A round of the outer loop fits, and what it reads leaves a state between two lines.
  abbrev Reads : Reader → Round → Type 0
  Reads r round = (r' : Reader) → (round ≡ line r') ⊎ (round ≡ short_line r') → Between whole r'

  cut_newline-Reads :
      (r : Reader) (gathered : Gathered)
      → ((r' : Reader) → gathered ≡ complete r' → Between whole r')
      → Reads r (cut_newline gathered)
  unfolding cut_newline
  cut_newline-Reads r (complete d) h r' (inl e) =
      let b = h d refl in
      subst (Between whole)
        {x = record d { buffer = take (length d.buffer - 1) d.buffer; lineno = d.lineno + 1 }}
        (cc e) (record { low = b.low; high = b.high; left = b.left; clean = b.clean })
  cut_newline-Reads r (complete d) h r' (inr e) = absurd (cc e)
  cut_newline-Reads r broken h r' (inl e) = absurd (cc e)
  cut_newline-Reads r broken h r' (inr e) = absurd (cc e)
  cut_newline-Reads r no_fuel h r' (inl e) = absurd (cc e)
  cut_newline-Reads r no_fuel h r' (inr e) = absurd (cc e)

  first_read-Reads :
      (r : Reader) → Within whole r → GatherFits (suc (length r.unread)) r × Reads r (first_read r)
  unfolding first_read
  first_read-Reads r w =
      let (fits, keeps) = gather-Keeps whole small (suc (length r.unread)) r w in
      (
        fits,
        elim (Bool-cases (length r.buffer == 2 && is_partial r.buffer)) [
          | inl e ↦ rw e (λ r' h. elim h [ inl h' ↦ absurd (cc h') | inr h' ↦ absurd (cc h') ])
          | inr e ↦ elim (Bool-cases (ltb (length r.buffer) 2)) [
            | inl e' ↦
                rw (e, e')
                  (λ r' h. elim h [
                    | inl h' ↦ absurd (cc h')
                    | inr h' ↦ subst (Between whole) (cc h') w.between
                  ])
            | inr e' ↦ rw (e, e') (cut_newline-Reads r _ keeps)
          ]
        ],
      )

  start_line-Reads :
      (r : Reader) (s : Bytes)
      → Between whole r
      → r.unread ≡ s
      → StartFits r (fgets r.bufsize s) × Reads r (start_line r (fgets r.bufsize s))
  unfolding start_line
  start_line-Reads r [] b e =
      unfold fgets in (tt, λ r' h. elim h [ inl h' ↦ absurd (cc h') | inr h' ↦ absurd (cc h') ])
  start_line-Reads r (c ∷ s) b e =
      let (x, y, read, t) = fgets-Takes r.bufsize c s (omega (arith, b.low)) in
      let (clean_x, clean_y) = NoNul-split x y (subst NoNul t.splits (subst NoNul e b.clean)) in
      let within =
        taken-Within whole (record r { buffer = [] }) (c ∷ s) x y
          (record { low = b.low; high = b.high; left = b.left; clean = b.clean }) tt
          (subst NoNul e b.clean) (omega (arith, b.low))
          (omega (arith, b.left, ap (λ (l : Bytes). length l) e))
          (subst (λ n. Takes n (c ∷ s) x y) (omega arith) t) in
      subst (λ o. StartFits r o × Reads r (start_line r o)) (sym read)
        (rw (c_string_lem x clean_x) (first_read-Reads _ within))

  rounds-Fit : (fuel : ℕ) (r : Reader) → Between whole r → RoundsFit fuel r
  unfolding next_line
  rounds-Fit zero r b = tt
  rounds-Fit (suc fuel) r b =
      let (fits, reads) = start_line-Reads r r.unread b refl in
      (fits, λ r' h. rounds-Fit fuel r' (reads r' h))

-- A configuration file without a nul octet, which is at least 2049 octets shorter than INT_MAX, is
-- read as the sequence of its logical lines, whatever the buffer cuts them into, and each time that
-- the inner loop makes room in the buffer, its size fits an int.
pub read_conf_file-RoundsFit :
    (files : Files) (fuel : ℕ) (name content : Bytes) (c : Config)
    → files.content name ≡ some content
    → NoNul content
    → length content + 2049 ≤ int_max
    → RoundsFit (suc (length content)) (start_reading files content)
      × (read_conf_file files (suc fuel) name c
          ≡ load_lines files (read_conf_file files fuel) name (logical (physical content) none 0) c)
read_conf_file-RoundsFit files fuel name content c e clean small = (
  rounds-Fit (length content) small (suc (length content)) (start_reading files content)
      (record { low = omega arith; high = omega arith; left = omega arith; clean = clean }),
  read_conf_file-load_lines files fuel name content c e clean,
)
