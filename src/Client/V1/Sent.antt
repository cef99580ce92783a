-- ===== src/Client/V1/Sent.antt =====
-- The token of a command in protocol version one.
use remctl.Base.{
  ℕ, ◌+◌, ◌-◌, ◌^◌, ◌%◌, ◌≡◌, ◌≤◌, ◌<◌, refl, ap, ◌∙◌, true, false, some, List, [], ◌∷◌, ◌++◌,
  append_assoc, length, length-append, length-htonl, leb, le→not_ltb, lt→not_leb, Bytes, htonl,
  arith,
}
use remctl.Protocol.{token_max_data, uint32_max, command_max_args}
use remctl.Protocol.Wire.{payload, body, FitsWire}
use remctl.Client.V2.Reliable.{IsReliable, after, token_send_priv_reliable}
use remctl.Client.Session.{Remctl, with_channel, send_priv, sent_or_error}
use remctl.Client.V1.{
  total_length, prepend, write_args, mark_ready, send_written, send_sized, internal_v1_commandv,
}

write_args-body : (args : List Bytes) → FitsWire args → write_args args ≡ some (body args)
unfolding write_args prepend body htonl
write_args-body [] h = refl
write_args-body (arg ∷ args) (fits, h) =
    rw (le→not_ltb uint32_max (length arg) (omega arith), write_args-body args h)
      (ap some (append_assoc (htonl (length arg)) arg (body args)))

no_overflow :
    (total n : ℕ) → total + n < 2 ^ 32 → leb ((2 ^ 64 - 1 + 2 ^ 64 - 4 - n) % 2 ^ 64) total ≡ false
no_overflow total n h = lt→not_leb _ total (omega arith)

length-body :
    (arg : Bytes) (args : List Bytes)
    → length (body (arg ∷ args)) ≡ 4 + length arg + length (body args)
unfolding body htonl
length-body arg args = omega (
  arith,
  length-append (htonl (length arg)) (arg ++ body args),
  length-htonl (length arg),
  length-append arg (body args),
)

empty_body : length (body []) ≡ 0
unfolding body
empty_body = refl

total_length-body :
    (total : ℕ) (args : List Bytes)
    → total + length (body args) < 2 ^ 32
    → total_length total args ≡ some (total + length (body args))
unfolding total_length
total_length-body total [] h = ap some (omega (arith, empty_body))
total_length-body total (arg ∷ args) h =
    rw (no_overflow total (length arg) (omega (arith, length-body arg args))) (
      total_length-body (total + (4 + length arg)) args (omega (arith, length-body arg args))
      ∙ ap some (omega (arith, length-body arg args)))

-- The session once the token was sent.
abbrev pub asked : Remctl → Bytes → Remctl
asked r tok = record (with_channel (after r.world.channel (tok ∷ [])) r) { is_ready = true }

pub internal_v1_commandv-payload :
    (r : Remctl) (args : List Bytes)
    → length args ≤ command_max_args
    → FitsWire args
    → length (payload args) ≤ token_max_data
    → IsReliable r.world.channel
    → internal_v1_commandv r args ≡ (true, asked r (payload args))
unfolding internal_v1_commandv send_sized send_written send_priv sent_or_error mark_ready payload
internal_v1_commandv-payload r args few fits small reliable =
    rw
      (
        le→not_ltb uint32_max (length args) (omega arith),
        total_length-body 4 args (
            omega
              (arith, length-append (htonl (length args)) (body args), length-htonl (length args))),
        write_args-body args fits,
        token_send_priv_reliable (htonl (length args) ++ body args) r.world.channel reliable small,
      )
      refl
