-- ===== src/Server/Config.antt =====
-- The options of a configuration line (server/config.c): what is between the program and the ACLs.
-- A C string is the list of its octets before the nul.
pub mod Options
pub mod Line
pub mod File
pub mod Load
pub mod Number
pub mod Rules
pub mod Tests
use remctl.Base.{
  ℕ, zero, suc, ◌+◌, ◌-◌, ◌*◌, ◌^◌, Bool, true, false, not, ◌&&◌, ◌||◌, Option, none, some, List,
  [], ◌∷◌, leb, ltb, ◌==◌, if◌then◌else◌, Bytes,
}
use remctl.Server.Acl.Lines.{isspace, skip_space}

unfoldable pub isdigit : ℕ → Bool
isdigit c = leb 48 c && leb c 57

-- `isalpha` and `isalnum` of the C locale.
unfoldable pub isalpha : ℕ → Bool
isalpha c = (leb 65 c && leb c 90) || (leb 97 c && leb c 122)

unfoldable pub isalnum : ℕ → Bool
unfolding isalpha isdigit
isalnum c = isalpha c || isdigit c

-- The loop of `is_option`; `first` holds at the first octet only.
unfoldable pub is_option_from : Bool → Bytes → Bool
unfolding isalnum
is_option_from first [] = false
is_option_from first (c ∷ []) = false
is_option_from first (c ∷ d ∷ rest) =
    let next = is_option_from false (d ∷ rest) in
    if c == b'=' && not first
    then true
    else if not (isalnum c) && not (c == b'-')
    then false
    else next

unfoldable pub is_option : Bytes → Bool
unfolding is_option_from isalpha
is_option [] = false
is_option (c ∷ option) = if isalpha c then is_option_from true (c ∷ option) else false

-- The digits that `strtol` reads, added to `value`, and what is behind them.
unfoldable pub digits : ℕ → Bytes → ℕ × Bytes
unfolding isdigit
digits value [] = (value, [])
digits value (c ∷ rest) =
    let next = digits (value * 10 + (c - 48)) rest in if isdigit c then next else (value, c ∷ rest)

-- LONG_MAX, for a long of 64 bits.
abbrev pub long_max : ℕ
long_max = 2 ^ 63 - 1

-- What `convert_number` takes: nothing behind the digits, and a positive number that fits.
unfoldable pub converted : ℕ × Bytes → Option ℕ
converted (value, []) = if value == 0 || ltb long_max value then none else some value
converted (value, c ∷ rest) = none

-- The sign that `strtol` reads: behind a minus no number is positive.
unfoldable pub convert_signed : Bytes → Option ℕ
unfolding converted digits
convert_signed [] = none
convert_signed (c ∷ string) =
    if c == b'-'
    then none
    else if c == b'+'
    then converted (digits 0 string)
    else converted (digits 0 (c ∷ string))

unfoldable pub convert_number : Bytes → Option ℕ
unfolding convert_signed skip_space
convert_number string = convert_signed (skip_space string)
