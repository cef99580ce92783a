-- ===== src/Client/V2/Reliable.antt =====
-- A channel that takes every token, and what a round of the loop that sends a command does over it.
use remctl.Base.{
  ℕ, suc, ◌+◌, ◌-◌, ◌≤◌, ◌<◌, ◌≡◌, ◌⊎◌, refl, ap, Bool, not, List, [], ◌∷◌, ◌++◌, append_assoc,
  arith, length, ◌==◌, lt→ltb, le→not_ltb, Bytes, htonl, some, Option, none,
}
use remctl.Protocol.{token_ok, token_max_data}
use remctl.Protocol.Chunks.{Chunked, header, last_status, more_status}
use remctl.Channel.{Channel, token_send_priv}
use remctl.Client.V2.{
  Filled, fill, Commandv, ready, token_size, continue_status, start, send_tokens, go_on,
}
use remctl.Client.V2.Fill.{unsent, FillsTo, Fills}

-- A network and a GSS-API context that take every token.
abbrev pub IsReliable : Channel → Type 0
IsReliable ch = ch.outcomes ≡ []

-- The channel after `tokens` more are sent.
abbrev pub after : Channel → List Bytes → Channel
after ch tokens = record ch { sent = ch.sent ++ tokens }

pub token_send_priv_reliable :
    (tok : Bytes) (ch : Channel)
    → IsReliable ch
    → length tok ≤ token_max_data
    → token_send_priv tok ch ≡ (token_ok, after ch (tok ∷ []))
unfolding token_send_priv
token_send_priv_reliable tok ch reliable small =
    rw (le→not_ltb token_max_data (length tok) small, reliable)

-- The result of the outer loop where `rest` is still to be sent.
abbrev pub SendsRest : Bool → Bytes → Commandv × Channel → Channel → Type 0
SendsRest started rest result ch =
    ((rest ≡ []) × (result ≡ (ready, ch)))
    ⊎ ((tokens : List Bytes) × Chunked started tokens rest × (result ≡ (ready, after ch tokens)))

abbrev pub started : ℕ → Bool
started sent = not (sent == 0)

-- What is left of the whole message: the argument count too, if nothing is sent.
abbrev pub left_over : ℕ → ℕ → List Bytes → ℕ → Bytes
left_over count sent args offset = start count sent ++ unsent args offset

pub Fills-some :
    {target : Bytes} {left : ℕ} (o : Option Filled)
    → Fills target left o
    → (f : Filled) × (o ≡ some f) × FillsTo target left f
Fills-some none h = absurd h
Fills-some (some f) h = (f, refl, h)

pub start_later : (count sent : ℕ) → 0 < sent → start count sent ≡ []
unfolding start
start_later count sent h = ground arith

pub length-start : (count sent : ℕ) → length (start count sent) ≤ 4
unfolding start htonl
length-start count sent = ground arith

-- One round, where the channel takes the token.
pub send_round :
    (fuel count total : ℕ) (args : List Bytes) (offset sent : ℕ) (ch : Channel) (f : Filled)
    → sent < total
    → fill args offset (token_size (total - sent) - 4 - length (start count sent)) ≡ some f
    → IsReliable ch
    → length (start count sent ++ f.written) ≤ token_max_data - 4
    → send_tokens (suc fuel) count total args offset sent ch
      ≡ send_tokens fuel count total f.args f.offset
          (sent + length (start count sent ++ f.written))
          (after ch
            ((header (continue_status (total - sent) sent) ++ start count sent ++ f.written) ∷ []))
unfolding send_tokens go_on
send_round fuel count total args offset sent ch f more_to_send filled reliable small =
    let bytes = start count sent ++ f.written in
    rw (
      lt→ltb sent total more_to_send,
      filled,
      token_send_priv_reliable (header (continue_status (total - sent) sent) ++ bytes) ch reliable
          (omega (arith, small)),
    )

pub after-after :
    (ch : Channel) (tok : Bytes) (tokens : List Bytes)
    → after (after ch (tok ∷ [])) tokens ≡ after ch (tok ∷ tokens)
after-after ch tok tokens =
    ap (λ s. record ch { sent = s }) (append_assoc ch.sent (tok ∷ []) tokens)

-- The status of the token that a round sends.
pub status_last :
    (unsent_length sent : ℕ)
    → unsent_length ≤ token_max_data - 4
    → continue_status unsent_length sent ≡ last_status (started sent)
unfolding continue_status token_size
status_last unsent_length sent h = ground arith

pub status_more :
    (unsent_length sent : ℕ)
    → token_max_data - 4 < unsent_length
    → continue_status unsent_length sent ≡ more_status (started sent)
unfolding continue_status token_size
status_more unsent_length sent h = ground arith

pub token_size_bounds :
    (unsent_length : ℕ)
    → (token_size unsent_length ≤ token_max_data)
      × (token_size unsent_length ≤ unsent_length + 4)
      × ((token_size unsent_length ≡ token_max_data)
          ⊎ (token_size unsent_length ≡ unsent_length + 4))
unfolding token_size
token_size_bounds unsent_length = ground arith
