-- ===== src/Server/Config/Number.antt =====
-- The numbers that `convert_number` of server/config.c takes.
use remctl.Base.{
  ℕ, suc, ◌+◌, ◌-◌, ◌*◌, ◌^◌, ◌≤◌, ◌≡◌, ◌↔◌, refl, ap, true, false, some, [], ◌∷◌, length, ◌==◌,
  Bytes, All, arith,
}
use native.Mathlib.Nat.{pow-succ'}
use remctl.Server.Acl.Lines.{isspace, skip_space}
use remctl.Server.Config.{isdigit, digits, long_max, converted, convert_signed, convert_number}

abbrev pub IsDigit : ℕ → Type 0
IsDigit c = (48 ≤ c) × (c ≤ 57)

-- The value of a decimal number, by the places of its digits.
unfoldable pub decimal : Bytes → ℕ
decimal [] = 0
decimal (c ∷ string) = (c - 48) * 10 ^ length string + decimal string

isdigit-IsDigit : (c : ℕ) → IsDigit c → isdigit c ≡ true
unfolding isdigit
isdigit-IsDigit c h = ground arith

shift :
    (value digit power rest : ℕ)
    → (value * 10 + digit) * power + rest ≡ value * (10 * power) + (digit * power + rest)
shift value digit power rest = grind arith

start_value : (value : ℕ) → value ≡ value * 10 ^ 0 + 0
start_value value = omega arith

shift_value :
    (value digit places rest : ℕ)
    → (value * 10 + digit) * 10 ^ places + rest
      ≡ value * 10 ^ suc places + (digit * 10 ^ places + rest)
shift_value value digit places rest =
    rw (pow-succ' 10 places) (shift value digit (10 ^ places) rest)

digits-decimal :
    (value : ℕ) (string : Bytes)
    → All IsDigit string
    → digits value string ≡ (value * 10 ^ length string + decimal string, [])
unfolding digits decimal
digits-decimal value [] h = ap (λ n. (n, [])) (start_value value)
digits-decimal value (c ∷ string) (p, h) =
    rw (isdigit-IsDigit c p, digits-decimal (value * 10 + (c - 48)) string h)
      (ap (λ n. (n, [])) (shift_value value (c - 48) (length string) (decimal string)))

not_space : (c : ℕ) → IsDigit c → isspace c ≡ false
unfolding isspace
not_space c h = ground arith

not_sign : (c : ℕ) → IsDigit c → ((c == 45) ≡ false) × ((c == 43) ≡ false)
not_sign c h = ground arith

converted_iff :
    (value n : ℕ) → (converted (value, []) ≡ some n) ↔ ((value ≡ n) × (1 ≤ n) × (n ≤ long_max))
unfolding converted
converted_iff value n = (λ h. grind arith, λ h. grind arith)

first_digit :
    (c : ℕ) (string : Bytes)
    → IsDigit c
    → convert_number (c ∷ string) ≡ converted (digits 0 (c ∷ string))
unfolding convert_number convert_signed skip_space
first_digit c string h = rw (not_space c h) (rw ((not_sign c h).0, (not_sign c h).1) refl)

no_start : (power value : ℕ) → 0 * power + value ≡ value
no_start power value = omega arith

empty_number :
    (n : ℕ) → (convert_number [] ≡ some n) ↔ ((decimal [] ≡ n) × (1 ≤ n) × (n ≤ long_max))
unfolding convert_number convert_signed skip_space decimal
empty_number n = (λ h. absurd (cc h), λ (e, a, b). absurd (omega arith))

-- A string of digits is taken for a number exactly if that is its decimal value, and it is positive
-- and fits a long.
pub convert_number-decimal :
    (string : Bytes) (n : ℕ)
    → All IsDigit string
    → (convert_number string ≡ some n) ↔ ((decimal string ≡ n) × (1 ≤ n) × (n ≤ long_max))
convert_number-decimal [] n h = empty_number n
convert_number-decimal (c ∷ string) n (p, h) =
    rw
      (
        first_digit c string p,
        digits-decimal 0 (c ∷ string) (p, h),
        no_start (10 ^ length (c ∷ string)) (decimal (c ∷ string)),
      )
      (converted_iff (decimal (c ∷ string)) n)
