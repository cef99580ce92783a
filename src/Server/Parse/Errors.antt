-- ===== src/Server/Parse/Errors.antt =====
-- Which error a command gets that is not accepted.
use remctl.Base.{
  ℕ, zero, suc, ◌≤◌, ◌<◌, ◌≡◌, ◌≢◌, ◌↔◌, ◌⊎◌, inl, inr, refl, List, [], ◌∷◌, arith, length, take,
  drop, Bytes, All, IsByte, ntohl, if◌then◌else◌, sym, ◌∙◌, ap, codes, Bool-cases, ◌&&◌, leb, ltb,
  ◌==◌, ◌*◌,
}
use remctl.Protocol.{unknown_command, toomany_args, command_max_args}
use remctl.Server.Parse.{
  Parsed, parsed, refused, overread, invalid, add, finish, parse_args, parse_command,
}
use remctl.Protocol.Wire.{payload, FitsWire}
use remctl.Server.Parse.Complete.{parse_command-payload}
use remctl.Server.Parse.Sound.{parse_command_sound}

abbrev Settled : Parsed → Type 0
Settled r = ((args : List Bytes) × (r ≡ parsed args)) ⊎ (r ≡ invalid)

add-Settled : (arg : Bytes) (r : Parsed) → Settled r → Settled (add arg r)
unfolding add invalid
add-Settled arg (parsed args) h = inl (arg ∷ args, refl)
add-Settled arg (refused code message) (inl h) = absurd (cc (h.1))
add-Settled arg (refused code message) (inr h) = inr h
add-Settled arg overread (inl h) = absurd (cc (h.1))
add-Settled arg overread (inr h) = absurd (cc h)

finish-Settled : (left : ℕ) (rest : Bytes) → Settled (finish left rest)
unfolding finish invalid
finish-Settled left rest = elim (Bool-cases (left == 0 && length rest == 0)) [
  | inl e ↦ rw e (inl ([], refl))
  | inr e ↦ rw e (inr refl)
]

parse_args-Settled : (left : ℕ) (rest : Bytes) → Settled (parse_args left rest)
unfolding parse_args
parse_args-Settled zero rest = elim (Bool-cases (leb 4 (length rest))) [
  | inl e ↦ rw e (inr refl)
  | inr e ↦ rw e (finish-Settled 0 rest)
]
parse_args-Settled (suc left) rest =
    let n = ntohl rest in
    let p = drop 4 rest in
    elim (Bool-cases (leb 4 (length rest))) [
      | inr e ↦ rw e (finish-Settled (suc left) rest)
      | inl e ↦ elim (Bool-cases (ltb (length p) n)) [
        | inl short ↦ rw (e, short) (inr refl)
        | inr fits ↦
            rw (e, fits)
              (add-Settled (take n p) (parse_args left (drop n p))
                (parse_args-Settled left (drop n p)))
      ]
    ]

abbrev pub InRange : ℕ → Type 0
InRange argc = (1 ≤ argc) × (argc ≤ command_max_args)

parse_command_loop :
    (buffer : Bytes)
    → 4 ≤ length buffer
    → InRange (ntohl buffer)
    → parse_command buffer ≡ (
        if ltb (length (drop 4 buffer)) (4 * ntohl buffer)
        then invalid
        else parse_args (ntohl buffer) (drop 4 buffer))
unfolding parse_command
parse_command_loop buffer long range = ground arith

parse_command-Settled :
    (buffer : Bytes) → 4 ≤ length buffer → InRange (ntohl buffer) → Settled (parse_command buffer)
parse_command-Settled buffer long range =
    rw (parse_command_loop buffer long range)
      (elim (Bool-cases (ltb (length (drop 4 buffer)) (4 * ntohl buffer))) [
        | inl short ↦ rw short (inr refl)
        | inr fits ↦ rw fits (parse_args-Settled (ntohl buffer) (drop 4 buffer))
      ])

invalid-ne-parsed : (args : List Bytes) → invalid ≢ parsed args
unfolding invalid
invalid-ne-parsed args h = cc

-- A command of at least four octets whose argument count is in range is answered by "Invalid
-- command token" exactly if it is not the payload of 1 to `command_max_args` arguments.
pub parse_command-eq-invalid :
    (buffer : Bytes)
    → All IsByte buffer
    → 4 ≤ length buffer
    → InRange (ntohl buffer)
    → (parse_command buffer ≡ invalid)
      ↔ (¬ ((args : List Bytes) × InRange (length args) × FitsWire args × (buffer ≡ payload args)))
parse_command-eq-invalid buffer bytes long range = (
  λ h (args, (low, high), fits, e).
      invalid-ne-parsed args
        (sym h ∙ ap parse_command e ∙ parse_command-payload args low high fits),
  λ none_fits. elim (parse_command-Settled buffer long range) [
    | inr h ↦ h
    | inl (args, h) ↦
        (let (e, low, high, fits) = parse_command_sound buffer args bytes h in
          absurd (none_fits (args, (low, high), fits, e)))
  ],
)

Settled-excludes :
    (r : Parsed)
    → Settled r
    → (r ≢ overread)
      × (r ≢ refused unknown_command (codes "Unknown command"))
      × (r ≢ refused toomany_args (codes "Too many arguments"))
unfolding invalid
Settled-excludes r (inl h) = (λ e. cc (h.1), λ e. cc (h.1), λ e. cc (h.1))
Settled-excludes r (inr h) = (λ e. cc h, λ e. cc h, λ e. cc h)

-- The buffer is read past its end exactly if it is shorter than the argument count. Otherwise the
-- answer is "Unknown command" exactly for a count of zero, and "Too many arguments" exactly for a
-- count above `command_max_args`.
pub parse_command_refuses :
    (buffer : Bytes)
    → ((parse_command buffer ≡ overread) ↔ (length buffer < 4))
      × ((parse_command buffer ≡ refused unknown_command (codes "Unknown command"))
          ↔ ((4 ≤ length buffer) × (ntohl buffer ≡ 0)))
      × ((parse_command buffer ≡ refused toomany_args (codes "Too many arguments"))
          ↔ ((4 ≤ length buffer) × (command_max_args < ntohl buffer)))
unfolding parse_command invalid
parse_command_refuses buffer =
    let (h, u, t) =
      Settled-excludes (parse_args (ntohl buffer) (drop 4 buffer))
        (parse_args-Settled (ntohl buffer) (drop 4 buffer)) in
    (
      (λ e. ground arith, λ e. ground arith),
      (λ e. ground arith, λ e. ground arith),
      (λ e. ground arith, λ e. ground arith),
    )
