-- ===== src/Server/V2/Collect.antt =====
-- A command that is cut into tokens as the protocol says is put together again.
use remctl.Base.{
  some, none, ℕ, zero, suc, ◌+◌, ◌-◌, ◌≤◌, ◌<◌, ◌≡◌, refl, ap, ◌∙◌, Bool, true, false, List, [],
  ◌∷◌, ◌++◌, map, append_assoc, arith, length, leb, le→not_ltb, lt→not_leb, length-append,
  length-map, Bytes,
}
use remctl.Protocol.{token_max_data, command_max_data}
use remctl.Protocol.Chunks.{Chunked, last, more, header, last_status, more_status}
use remctl.Channel.{Received, token, token_recv_priv}
use remctl.Server.Session.{Client, M, done, spent, raise, recv_token, pure, bind_done, ◌>>=◌}
use remctl.Server.V2.{room_left, read_continuation, Collected, complete, abandoned, collect}

-- The client after the tokens of a command are read, with `rest` still to come.
abbrev pub resumed : Client → List Received → Client
resumed c rest = record c { keepalive = true; channel = record c.channel { incoming = rest } }

room_left-sub : (total : ℕ) → total ≤ command_max_data → room_left total ≡ command_max_data - total
unfolding room_left
room_left-sub total h = omega arith

room_suffices :
    (total size : ℕ) → total + size < command_max_data → leb (room_left total) size ≡ false
room_suffices total size h =
    lt→not_leb (room_left total) size (omega (arith, room_left-sub total (omega arith)))

-- The loop started with the first of the tokens.
abbrev collect_all : ℕ → List Bytes → Bytes → Bool → M Collected
collect_all fuel [] buffer started = raise spent
collect_all fuel (tok ∷ tokens) buffer started = collect fuel tok buffer started

abbrev behind : List Bytes → List Received
behind [] = []
behind (tok ∷ tokens) = map token tokens

collect_last :
    (fuel : ℕ) (started : Bool) (piece buffer : Bytes) (c : Client)
    → length piece ≤ token_max_data - 4
    → length buffer + length piece < command_max_data
    → collect (suc fuel) (header (last_status started) ++ piece) buffer started c
      ≡ done (complete (buffer ++ piece)) (record c { keepalive = true })
unfolding collect ◌>>=◌
collect_last fuel true piece buffer c small room = rw (
  le→not_ltb token_max_data (4 + length piece) (omega arith),
  room_suffices (length buffer) (length piece) room,
)
collect_last fuel false piece buffer c small room = rw (
  le→not_ltb token_max_data (4 + length piece) (omega arith),
  room_suffices (length buffer) (length piece) room,
)

read_next :
    (k : ℕ) (piece : Bytes) (rest : List Received) (c : Client)
    → c.channel.incoming ≡ token (header k ++ piece) ∷ rest
    → read_continuation c
      ≡ done
          (some (header k ++ piece))
          (record c { channel = record c.channel { incoming = rest } })
unfolding read_continuation recv_token token_recv_priv ◌>>=◌
read_next k piece rest c e = rw e

unfold_next :
    (fuel : ℕ) (piece buffer : Bytes) (c : Client) (k : ℕ) (next : Bytes) (rest : List Received)
    → c.channel.incoming ≡ token (header k ++ next) ∷ rest
    → (read_continuation >>= λ r. elim r [
      | none ↦ pure (abandoned false)
      | some tok ↦ collect fuel tok (buffer ++ piece) true
    ])
        (record c { keepalive = true })
      ≡ collect fuel (header k ++ next) (buffer ++ piece) true (resumed c rest)
unfold_next fuel piece buffer c k next rest e =
    bind_done read_continuation _ (record c { keepalive = true })
      (read_next k next rest (record c { keepalive = true }) e)

collect_more :
    (fuel : ℕ) (started : Bool) (piece buffer : Bytes) (c : Client) (k : ℕ) (next : Bytes)
    (rest : List Received)
    → length piece ≤ token_max_data - 4
    → length buffer + length piece < command_max_data
    → c.channel.incoming ≡ token (header k ++ next) ∷ rest
    → collect (suc fuel) (header (more_status started) ++ piece) buffer started c
      ≡ collect fuel (header k ++ next) (buffer ++ piece) true (resumed c rest)
unfolding collect ◌>>=◌
collect_more fuel true piece buffer c k next rest small room e =
    rw
      (
        le→not_ltb token_max_data (4 + length piece) (omega arith),
        room_suffices (length buffer) (length piece) room,
      )
      (unfold_next fuel piece buffer c k next rest e)
collect_more fuel false piece buffer c k next rest small room e =
    rw
      (
        le→not_ltb token_max_data (4 + length piece) (omega arith),
        room_suffices (length buffer) (length piece) room,
      )
      (unfold_next fuel piece buffer c k next rest e)

-- The first of the tokens.
pub first_token :
    {started : Bool} {tokens : List Bytes} {bytes : Bytes}
    → Chunked started tokens bytes
    → (k : ℕ) × (piece : Bytes) × (rest : List Bytes) × (tokens ≡ (header k ++ piece) ∷ rest)
first_token {started} (last piece pos small) = (last_status started, piece, [], refl)
first_token {started} (more {tokens = tokens} piece pos small chunked) =
    (more_status started, piece, tokens, refl)

collect_first :
    (fuel : ℕ) (started : Bool) (piece buffer : Bytes) (c : Client) (tokens : List Bytes)
    (rest : List Received)
    → length piece ≤ token_max_data - 4
    → length buffer + length piece < command_max_data
    → (k : ℕ) × (next : Bytes) × (later : List Bytes) × (tokens ≡ (header k ++ next) ∷ later)
    → c.channel.incoming ≡ map token tokens ++ rest
    → collect (suc fuel) (header (more_status started) ++ piece) buffer started c
      ≡ collect_all fuel tokens (buffer ++ piece) true (resumed c (behind tokens ++ rest))
collect_first fuel started piece buffer c tokens rest small room (k, next, later, shape) e =
    rw shape (
      collect_more fuel started piece buffer c k next (map token later ++ rest) small room
        (e ∙ ap (λ ts. map token ts ++ rest) shape))

collect_chunks :
    {started : Bool} {tokens : List Bytes} {bytes : Bytes} (fuel : ℕ) (buffer : Bytes) (c : Client)
    (rest : List Received)
    → Chunked started tokens bytes
    → c.channel.incoming ≡ behind tokens ++ rest
    → length buffer + length bytes < command_max_data
    → length tokens ≤ fuel
    → collect_all fuel tokens buffer started c ≡ done (complete (buffer ++ bytes)) (resumed c rest)
collect_chunks zero buffer c rest (last piece pos small) e room enough = absurd (omega arith)
collect_chunks zero buffer c rest (more piece pos small chunked) e room enough =
    absurd (omega arith)
collect_chunks {started} (suc fuel) buffer c rest (last piece pos small) e room enough =
    collect_last fuel started piece buffer c small room
    ∙ ap (λ r. done (complete (buffer ++ piece)) (resumed c r)) e
collect_chunks {started} (suc fuel) buffer c rest
      (more {tokens = tokens} {rest = bytes} piece pos small chunked) e room enough =
    collect_first fuel started piece buffer c tokens rest small
      (omega (arith, length-append piece bytes)) (first_token chunked) e
    ∙ collect_chunks fuel (buffer ++ piece) (resumed c (behind tokens ++ rest)) rest chunked refl
        (omega (arith, length-append piece bytes, length-append buffer piece)) (omega arith)
    ∙ ap (λ t. done (complete t) (resumed c rest)) (append_assoc buffer piece bytes)

length_incoming :
    (tokens : List Bytes) (c : Client) (rest : List Received)
    → c.channel.incoming ≡ map token tokens ++ rest
    → suc (length tokens) ≤ suc (length c.channel.incoming)
length_incoming tokens c rest e =
    rw e (omega (arith, length-append (map token tokens) rest, length-map token tokens))

-- The loop returns the data of a command that is cut into tokens as the protocol says, shorter than
-- `command_max_data`, once the tokens behind the first have come in, and leaves what follows them.
pub collect-Chunked :
    (tok : Bytes) (tokens : List Bytes) (bytes : Bytes) (c : Client) (rest : List Received)
    → Chunked false (tok ∷ tokens) bytes
    → c.channel.incoming ≡ map token tokens ++ rest
    → length bytes < command_max_data
    → collect (suc (length c.channel.incoming)) tok [] false c
      ≡ done (complete bytes) (resumed c rest)
collect-Chunked tok tokens bytes c rest chunked e room =
    collect_chunks (suc (length c.channel.incoming)) [] c rest chunked e (omega (arith, room))
      (length_incoming tokens c rest e)
