-- ===== src/Client/V2/Send.antt =====
-- What the client sends for a command is the command's payload, cut as the protocol says.
use mathlib.Core.Path.{subst}
use remctl.Base.{
  ℕ, zero, suc, ◌+◌, ◌-◌, ◌≤◌, ◌≡◌, inl, inr, refl, ap, ◌∙◌, false, List, [], ◌∷◌, ◌++◌, arith,
  length, ltb, Bool-cases, ltb→lt, le→not_ltb, length-append, length-htonl, eq_nil_of_length, Bytes,
  htonl,
}
use remctl.Protocol.{uint32_max}
use remctl.Protocol.Wire.{body, payload, FitsWire}
use remctl.Protocol.Chunks.{Chunked}
use remctl.Channel.{Channel}
use remctl.Client.V2.{fill, ready, message_length, token_size, start, send_tokens, commandv}
use remctl.Client.V2.Fill.{fill-Fills, nothing_sent, unsent_done}
use remctl.Client.V2.Reliable.{IsReliable, after, left_over, Fills-some}
use remctl.Client.V2.Round.{
  SendsFrom, SendsRest-later, piece_pos, length-left_over, length-later, round_sends,
}

send_tokens_rest :
    (fuel count total : ℕ) (args : List Bytes) (offset sent : ℕ) (ch : Channel)
    → SendsFrom fuel count total args offset sent ch
send_tokens_rest zero count total args offset sent ch e enough inside fits reliable =
    absurd (omega arith)
send_tokens_rest (suc fuel) count total args offset sent ch e enough inside fits reliable =
    elim (Bool-cases (ltb sent total)) [
      | inr done ↦ inl (
        eq_nil_of_length (left_over count sent args offset) (ground arith),
        unfold send_tokens in rw done,
      )
      | inl unfinished ↦
          (let more_to_send = ltb→lt sent total unfinished in
            let size = token_size (total - sent) - 4 - length (start count sent) in
            let (f, filled, h) =
              Fills-some (fill args offset size) (fill-Fills args offset size inside fits) in
            let moved = piece_pos count total args offset sent f e more_to_send h in
            let done = length-left_over count total args offset sent f e more_to_send h in
            let same = length-later count total args offset sent f e more_to_send h in
            let later = sent + length (start count sent ++ f.written) in
            round_sends count total args offset sent f e more_to_send h fuel ch filled reliable
              (λ ch' ok. SendsRest-later count later f ch' (omega (arith, moved)) (
                send_tokens_rest fuel count total f.args f.offset later ch'
                  (omega (arith, same, done, more_to_send))
                  (omega (arith, same, done, moved, e, enough)) h.inside h.fits ok)))
    ]

message_length-payload : (args : List Bytes) → message_length args ≡ 4 + length (body args)
unfolding message_length body htonl
message_length-payload [] = refl
message_length-payload (arg ∷ args) = omega (
  arith,
  message_length-payload args,
  length-append (htonl (length arg)) (arg ++ body args),
  length-append arg (body args),
  length-htonl (length arg),
)

length-payload : (args : List Bytes) → length (payload args) ≡ message_length args
unfolding payload htonl
length-payload args = omega (arith, message_length-payload args)

left_over_whole : (command : List Bytes) → left_over (length command) 0 command 0 ≡ payload command
unfolding start payload
left_over_whole command = ap (λ t. htonl (length command) ++ t) (unsent_done command)

pub commandv-Chunked :
    (command : List Bytes) (ch : Channel)
    → length command ≤ uint32_max
    → FitsWire command
    → IsReliable ch
    → (tokens : List Bytes) × Chunked false tokens (payload command)
      × (commandv command ch ≡ (ready, after ch tokens))
unfolding commandv
commandv-Chunked command ch few fits reliable =
    let whole = left_over_whole command in
    let size : length (left_over (length command) 0 command 0) ≡ message_length command =
      ap length whole ∙ length-payload command in
    rw (le→not_ltb uint32_max (length command) few)
      (elim (send_tokens_rest (suc (message_length command)) (length command)
        (message_length command) command 0 0 ch (omega (arith, size)) (omega (arith, size))
        (nothing_sent command) fits reliable) [
          | inl (nothing, done) ↦
              absurd (omega (arith, ap length nothing, size, message_length-payload command))
          | inr (tokens, chunked, done) ↦
              (tokens, subst (λ t. Chunked false tokens t) whole chunked, done)
        ])
