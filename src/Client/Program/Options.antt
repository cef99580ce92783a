-- ===== src/Client/Program/Options.antt =====
-- The bounds that the options of the program remctl keep.
use mathlib.Core.Path.{subst}
use remctl.Base.{
  ℕ, ◌≤◌, ◌≡◌, refl, inl, inr, Bool, true, false, ◌||◌, Bool-cases, List, [], ◌∷◌, ltb, ◌==◌,
  if◌then◌else◌, Bytes, arith,
}
use remctl.Base.Int.{ℤ, pos, negsuc}
use remctl.Client.Program.{
  Settings, Parsed, goes_on, stops, set_port, set_timeout, strtol, parse_option, after_option,
  parse_options,
}

-- A port that fits an unsigned short, and a timeout that is not negative.
abbrev pub InRange : Settings → Type 0
InRange s = (s.port ≤ 65535) × ((n : ℕ) × (s.timeout ≡ pos n))

abbrev pub ParsedInRange : Parsed → Type 0
ParsedInRange (goes_on s) = InRange s
ParsedInRange (stops ending) = Unit {0}

if-InRange :
    (b : Bool) (x y : Parsed)
    → ParsedInRange x
    → ParsedInRange y
    → ParsedInRange (if b then x else y)
if-InRange true x y hx hy = hx
if-InRange false x y hx hy = hy

set_port-InRange :
    (s : Settings) (number : ℤ × Bytes) → InRange s → ParsedInRange (set_port s number)
unfolding set_port
set_port-InRange s (pos n, []) (port, timeout) = elim (Bool-cases (n == 0 || ltb 65535 n)) [
  | inl e ↦ rw e tt
  | inr e ↦ rw e (ground arith, timeout)
]
set_port-InRange s (pos n, c ∷ rest) h = tt
set_port-InRange s (negsuc n, []) h = tt
set_port-InRange s (negsuc n, c ∷ rest) h = tt

set_timeout-InRange :
    (s : Settings) (number : ℤ × Bytes) → InRange s → ParsedInRange (set_timeout s number)
unfolding set_timeout
set_timeout-InRange s (pos n, []) (port, timeout) = (port, (n, refl))
set_timeout-InRange s (pos n, c ∷ rest) h = tt
set_timeout-InRange s (negsuc n, []) h = tt
set_timeout-InRange s (negsuc n, c ∷ rest) h = tt

parse_option-InRange :
    (s : Settings) (option : ℕ) (optarg : Bytes)
    → InRange s
    → ParsedInRange (parse_option s option optarg)
unfolding parse_option
parse_option-InRange s option optarg h = if-InRange (option == b'b') _ _ h (
    if-InRange (option == b'd') _ _ h (
      if-InRange (option == b'h' || option == b'v') _ _ tt (
        if-InRange (option == b'p') _ _ (set_port-InRange s (strtol optarg) h) (
          if-InRange (option == b's') _ _ h
            (if-InRange (option == b't') _ _ (set_timeout-InRange s (strtol optarg) h) tt)))))

after_option-InRange :
    (parsed : Parsed) (next : Settings → Parsed)
    → ParsedInRange parsed
    → ((s : Settings) → InRange s → ParsedInRange (next s))
    → ParsedInRange (after_option parsed next)
unfolding after_option
after_option-InRange (goes_on s) next h k = k s h
after_option-InRange (stops ending) next h k = tt

options-InRange :
    (s : Settings) (options : List (ℕ × Bytes))
    → InRange s
    → ParsedInRange (parse_options s options)
unfolding parse_options
options-InRange s [] h = h
options-InRange s ((option, optarg) ∷ options) h =
    after_option-InRange (parse_option s option optarg) _ (parse_option-InRange s option optarg h)
      (λ s' h'. options-InRange s' options h')

-- Options that the program takes leave a port that fits an unsigned short, so that the cast to it
-- changes nothing, and a timeout that is not negative.
pub parse_options-InRange :
    (s : Settings) (options : List (ℕ × Bytes)) (t : Settings)
    → InRange s
    → parse_options s options ≡ goes_on t
    → InRange t
parse_options-InRange s options t h e = subst ParsedInRange e (options-InRange s options h)
