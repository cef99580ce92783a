-- ===== src/Server/Parse/Sound.antt =====
-- What an accepted command looked like on the wire, and which error each other one gets.
use remctl.Base.{
  ℕ, zero, suc, ◌≤◌, ◌<◌, ◌^◌, ◌≡◌, ap, refl, List, [], ◌∷◌, arith, length, take, drop,
  eq_nil_of_length, take-append-drop, length-take, All, All-drop, Bytes, IsByte, ntohl, htonl-ntohl,
}
use remctl.Protocol.{command_max_args}
use remctl.Server.Parse.{Parsed, parsed, refused, overread, add, finish, parse_args, parse_command}
use remctl.Protocol.Wire.{body, payload, FitsWire}

add-eq-parsed :
    (arg : Bytes) (p : Parsed) (args : List Bytes)
    → add arg p ≡ parsed args
    → (rest : List Bytes) × (p ≡ parsed rest) × (args ≡ arg ∷ rest)
unfolding add
add-eq-parsed arg (parsed rest) args h = (rest, refl, ground arith)
add-eq-parsed arg (refused code message) args h = cc
add-eq-parsed arg overread args h = cc

parse_args-eq-parsed :
    (left a b c d : ℕ) (p : Bytes) (args : List Bytes)
    → parse_args (suc left) (a ∷ b ∷ c ∷ d ∷ p) ≡ parsed args
    → (ntohl (a ∷ b ∷ c ∷ d ∷ p) ≤ length p)
      × (add
            (take (ntohl (a ∷ b ∷ c ∷ d ∷ p)) p)
            (parse_args left (drop (ntohl (a ∷ b ∷ c ∷ d ∷ p)) p))
          ≡ parsed args)
unfolding parse_args
parse_args-eq-parsed left a b c d p args h = ground arith

finish-eq-parsed :
    (left : ℕ) (rest : Bytes) (args : List Bytes)
    → finish left rest ≡ parsed args
    → (left ≡ 0) × (length rest ≡ 0) × (args ≡ [])
unfolding finish
finish-eq-parsed left rest args h = ground arith

parse_args_zero :
    (rest : Bytes) (args : List Bytes)
    → parse_args 0 rest ≡ parsed args
    → (length rest ≡ 0) × (args ≡ [])
unfolding parse_args finish
parse_args_zero rest args h = ground arith

-- Four octets that hold `n`, then `n` octets, are one argument.
spell_argument :
    (a b c d : ℕ) (p : Bytes) (rest : List Bytes)
    → IsByte a
    → IsByte b
    → IsByte c
    → IsByte d
    → ntohl (a ∷ b ∷ c ∷ d ∷ p) ≤ length p
    → drop (ntohl (a ∷ b ∷ c ∷ d ∷ p)) p ≡ body rest
    → (a ∷ b ∷ c ∷ d ∷ p ≡ body (take (ntohl (a ∷ b ∷ c ∷ d ∷ p)) p ∷ rest))
      × (length (take (ntohl (a ∷ b ∷ c ∷ d ∷ p)) p) < 2 ^ 32)
unfolding body
spell_argument a b c d p rest ha hb hc hd fits spells =
    let n = ntohl (a ∷ b ∷ c ∷ d ∷ p) in
    let size : length (take n p) ≡ n = omega (arith, length-take n p) in
    (
      rw (size, htonl-ntohl a b c d p ha hb hc hd, ← spells, take-append-drop n p),
      rw size (unfold ntohl in omega arith),
    )

-- The arguments that the loop returns spell the bytes that it read.
pub parse_args_sound :
    (left : ℕ) (rest : Bytes) (args : List Bytes)
    → All IsByte rest
    → parse_args left rest ≡ parsed args
    → (rest ≡ body args) × (length args ≡ left) × FitsWire args
parse_args_sound zero rest args bytes h =
    let (rest_empty, args_empty) = parse_args_zero rest args h in
    rw (eq_nil_of_length rest rest_empty, args_empty) (unfold body in (refl, refl, tt))
parse_args_sound (suc left) [] args bytes h = absurd (unfold parse_args in ground arith)
parse_args_sound (suc left) (a ∷ []) args bytes h = absurd (unfold parse_args in ground arith)
parse_args_sound (suc left) (a ∷ b ∷ []) args bytes h = absurd (unfold parse_args in ground arith)
parse_args_sound (suc left) (a ∷ b ∷ c ∷ []) args bytes h =
    absurd (unfold parse_args in ground arith)
parse_args_sound (suc left) (a ∷ b ∷ c ∷ d ∷ p) args (ha, (hb, (hc, (hd, bytes)))) h =
    let n = ntohl (a ∷ b ∷ c ∷ d ∷ p) in
    let (fits, more) = parse_args-eq-parsed left a b c d p args h in
    let (rest, tail_eq, args_eq) =
      add-eq-parsed (take n p) (parse_args left (drop n p)) args more in
    let (spells, counts, ok) =
      parse_args_sound left (drop n p) rest (All-drop IsByte n p bytes) tail_eq in
    let (eq, small) = spell_argument a b c d p rest ha hb hc hd fits spells in
    rw args_eq (eq, ap suc counts, (small, ok))

parse_command-eq-parsed :
    (a b c d : ℕ) (p : Bytes) (args : List Bytes)
    → parse_command (a ∷ b ∷ c ∷ d ∷ p) ≡ parsed args
    → (1 ≤ ntohl (a ∷ b ∷ c ∷ d ∷ p))
      × (ntohl (a ∷ b ∷ c ∷ d ∷ p) ≤ command_max_args)
      × (parse_args (ntohl (a ∷ b ∷ c ∷ d ∷ p)) p ≡ parsed args)
unfolding parse_command
parse_command-eq-parsed a b c d p args h = ground arith

-- The buffer of an accepted command is the payload of the arguments that come back, there are 1 to
-- `command_max_args` of them, and their lengths fit 32 bits.
pub parse_command_sound :
    (buffer : Bytes) (args : List Bytes)
    → All IsByte buffer
    → parse_command buffer ≡ parsed args
    → (buffer ≡ payload args) × (1 ≤ length args) × (length args ≤ command_max_args) × FitsWire args
unfolding parse_command payload
parse_command_sound [] args bytes h = absurd (ground arith)
parse_command_sound (a ∷ []) args bytes h = absurd (ground arith)
parse_command_sound (a ∷ b ∷ []) args bytes h = absurd (ground arith)
parse_command_sound (a ∷ b ∷ c ∷ []) args bytes h = absurd (ground arith)
parse_command_sound (a ∷ b ∷ c ∷ d ∷ p) args (ha, (hb, (hc, (hd, bytes)))) h =
    let argc = ntohl (a ∷ b ∷ c ∷ d ∷ p) in
    let (low, high, loop) = parse_command-eq-parsed a b c d p args h in
    let (spells, counts, ok) = parse_args_sound argc p args bytes loop in
    (rw (counts, htonl-ntohl a b c d p ha hb hc hd, ← spells), rw counts low, rw counts high, ok)
