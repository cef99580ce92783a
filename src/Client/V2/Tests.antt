-- ===== src/Client/V2/Tests.antt =====
-- The client's command at a channel that takes every token.
use remctl.Base.{◌≡◌, List, [], ◌∷◌, Bytes, codes, htonl, refl}
use remctl.Channel.{Channel, token_send_priv}
use remctl.Client.V2.{
  ready, commandv, send_tokens, message_length, go_on, start, continue_status, token_size, fill,
  round, copy, prepend,
}
use remctl.Client.V2.Reliable.{after}

abbrev idle : Channel
idle = record { sent = []; outcomes = []; incoming = [] }

abbrev three_args : List Bytes
three_args = codes "help" ∷ [] ∷ codes "x" ∷ []

test_sent :
    commandv (codes "a" ∷ []) idle
    ≡ (ready, after idle ((2 ∷ 1 ∷ 1 ∷ 0 ∷ 0 ∷ 0 ∷ 0 ∷ 1 ∷ 0 ∷ 0 ∷ 0 ∷ 1 ∷ 97 ∷ []) ∷ []))
unfolding commandv send_tokens message_length go_on start htonl continue_status token_size fill
    round copy prepend token_send_priv
test_sent = refl
