-- ===== src/Client/V2/Round.antt =====
-- One round of the loop that sends a command: the token is a piece of the payload.
use mathlib.Core.Path.{subst}
use remctl.Base.{
  ℕ, suc, ◌+◌, ◌-◌, ◌≤◌, ◌<◌, ◌≡◌, ◌⊎◌, inl, inr, ap, sym, ◌∙◌, true, List, [], ◌∷◌, ◌++◌,
  append-nil, append_assoc, arith, length, length-append, Bytes, some,
}
use remctl.Protocol.{token_max_data}
use remctl.Protocol.Wire.{FitsWire}
use remctl.Protocol.Chunks.{Chunked, Chunked-pos, last, more, header}
use remctl.Channel.{Channel}
use remctl.Client.V2.{
  Filled, fill, Commandv, ready, token_size, continue_status, start, send_tokens,
}
use remctl.Client.V2.Fill.{unsent, OffsetInside, FillsTo}
use remctl.Client.V2.Reliable.{
  IsReliable, after, SendsRest, started, left_over, start_later, length-start, send_round,
  after-after, status_last, status_more, token_size_bounds,
}

abbrev pub SendsFrom : ℕ → ℕ → ℕ → List Bytes → ℕ → ℕ → Channel → Type 0
SendsFrom fuel count total args offset sent ch =
    sent + length (left_over count sent args offset) ≡ total
    → length (left_over count sent args offset) < fuel
    → OffsetInside args offset
    → FitsWire args
    → IsReliable ch
    → SendsRest (started sent) (left_over count sent args offset)
        (send_tokens fuel count total args offset sent ch) ch

-- Behind the first token, what is left holds no argument count.
pub SendsRest-later :
    (count sent : ℕ) (f : Filled) {result : Commandv × Channel} (ch : Channel)
    → 0 < sent
    → SendsRest (started sent) (left_over count sent f.args f.offset) result ch
    → SendsRest true (unsent f.args f.offset) result ch
SendsRest-later count sent f {result} ch pos h =
    let begun : started sent ≡ true = ground arith in
    subst (λ b. SendsRest b (unsent f.args f.offset) result ch) begun
      (subst (λ s. SendsRest (started sent) (s ++ unsent f.args f.offset) result ch)
        (start_later count sent pos) h)

-- One round, where something is left.
module _ (count total : ℕ) (args : List Bytes) (offset sent : ℕ) (f : Filled)
    (e : sent + length (left_over count sent args offset) ≡ total) (more_to_send : sent < total)
    (h : FillsTo
      (unsent args offset)
      (token_size (total - sent) - 4 - length (start count sent))
      f) where
  abbrev piece : Bytes
  piece = start count sent ++ f.written

  abbrev tok : Bytes
  tok = header (continue_status (total - sent) sent) ++ piece

  piece_keeps : piece ++ unsent f.args f.offset ≡ left_over count sent args offset
  piece_keeps =
      append_assoc (start count sent) f.written (unsent f.args f.offset)
      ∙ ap (λ t. start count sent ++ t) h.keeps

  pub length-left_over : length piece + length (unsent f.args f.offset) ≡ total - sent
  length-left_over =
      omega (arith, ap length piece_keeps, length-append piece (unsent f.args f.offset), e)

  piece_room : length piece + f.left ≡ token_size (total - sent) - 4
  piece_room = omega (
    arith,
    length-append (start count sent) f.written,
    h.room,
    length-start count sent,
    token_size_bounds (total - sent),
    e,
    length-append (start count sent) (unsent args offset),
    more_to_send,
  )

  piece_small : length piece ≤ token_max_data - 4
  piece_small = omega (arith, piece_room, token_size_bounds (total - sent))

  -- Either everything is sent, or the token is full and more follows.
  piece_status :
      ((length (unsent f.args f.offset) ≡ 0) × (total - sent ≤ token_max_data - 4))
      ⊎ ((0 < length (unsent f.args f.offset)) × (token_max_data - 4 < total - sent))
  piece_status = elim h.stops [
    | inl nothing ↦
        inl (ap length nothing, omega (arith, ap length nothing, length-left_over, piece_small))
    | inr (small, less) ↦ inr (
      omega (arith, less),
      omega (arith, small, less, piece_room, token_size_bounds (total - sent), length-left_over),
    )
  ]

  pub piece_pos : 0 < length piece
  piece_pos = elim h.stops [
    | inl nothing ↦ omega (arith, ap length nothing, length-left_over, more_to_send)
    | inr (small, less) ↦
        omega (arith, small, less, piece_room, token_size_bounds (total - sent), length-left_over)
  ]

  pub length-later :
      length (left_over count (sent + length piece) f.args f.offset)
      ≡ length (unsent f.args f.offset)
  length-later = rw (start_later count (sent + length piece) (omega (arith, piece_pos)))

  last_piece :
      unsent f.args f.offset ≡ []
      → Chunked (started sent) (tok ∷ []) (left_over count sent args offset)
  last_piece nothing =
      let small : total - sent ≤ token_max_data - 4 =
        omega (arith, ap length nothing, length-left_over, piece_small) in
      let whole : piece ≡ left_over count sent args offset =
        sym (append-nil piece) ∙ ap (λ t. piece ++ t) (sym nothing) ∙ piece_keeps in
      subst (λ t. Chunked (started sent) (tok ∷ []) t) whole
        (subst (λ k. Chunked (started sent) ((header k ++ piece) ∷ []) piece)
          (sym (status_last (total - sent) sent small)) (last piece piece_pos piece_small))

  more_piece :
      (tokens : List Bytes)
      → Chunked true tokens (unsent f.args f.offset)
      → Chunked (started sent) (tok ∷ tokens) (left_over count sent args offset)
  more_piece tokens chunked =
      let long : token_max_data - 4 < total - sent =
        omega (arith, piece_status, Chunked-pos chunked) in
      subst (λ t. Chunked (started sent) (tok ∷ tokens) t) piece_keeps
        (subst
          (λ k.
            Chunked (started sent) ((header k ++ piece) ∷ tokens) (piece ++ unsent f.args f.offset))
          (sym (status_more (total - sent) sent long)) (more piece piece_pos piece_small chunked))

  -- The round, where the rest of the loop sends the rest.
  pub round_sends :
      (fuel : ℕ) (ch : Channel)
      → fill args offset (token_size (total - sent) - 4 - length (start count sent)) ≡ some f
      → IsReliable ch
      → ((ch' : Channel)
          → IsReliable ch'
          → SendsRest true
              (unsent f.args f.offset)
              (send_tokens fuel count total f.args f.offset (sent + length piece) ch')
              ch')
      → SendsRest
          (started sent)
          (left_over count sent args offset)
          (send_tokens (suc fuel) count total args offset sent ch)
          ch
  round_sends fuel ch filled reliable rest =
      let sends =
        send_round fuel count total args offset sent ch f more_to_send filled reliable
          piece_small in
      elim (rest (after ch (tok ∷ [])) reliable) [
        | inl (nothing, done) ↦ inr (tok ∷ [], last_piece nothing, sends ∙ done)
        | inr (tokens, chunked, done) ↦ inr (
          tok ∷ tokens,
          more_piece tokens chunked,
          sends ∙ done ∙ ap (λ c. (ready, c)) (after-after ch tok tokens),
        )
      ]
