-- ===== src/Protocol/Chunks.antt =====
-- How the protocol sends a command whose payload may be longer than a token: the payload is cut
-- into pieces, and each piece follows the header of a MESSAGE_COMMAND with a continue status.
use remctl.Base.{
  ℕ, ◌-◌, ◌≤◌, ◌<◌, Bool, true, false, List, [], ◌∷◌, ◌++◌, length, length-append, arith, Bytes,
}
use remctl.Protocol.{token_max_data}
use remctl.Protocol.Message

-- Version 2, MESSAGE_COMMAND, keep-alive, and the continue status.
abbrev pub header : ℕ → Bytes
header status = 2 ∷ Message.command ∷ 1 ∷ status ∷ []

-- The status of the last token, and of the others; the argument says whether a token went before.
abbrev pub last_status : Bool → ℕ
last_status false = 0
last_status true = 3

abbrev pub more_status : Bool → ℕ
more_status false = 1
more_status true = 2

pub data Chunked : Bool → List Bytes → Bytes → Type 0 where
  last :
      {started : Bool} (piece : Bytes)
      → 0 < length piece
      → length piece ≤ token_max_data - 4
      → Chunked started ((header (last_status started) ++ piece) ∷ []) piece
  more :
      {started : Bool} {tokens : List Bytes} {rest : Bytes} (piece : Bytes)
      → 0 < length piece
      → length piece ≤ token_max_data - 4
      → Chunked true tokens rest
      → Chunked started ((header (more_status started) ++ piece) ∷ tokens) (piece ++ rest)

pub Chunked-pos :
    {started : Bool} {tokens : List Bytes} {bytes : Bytes}
    → Chunked started tokens bytes
    → 0 < length bytes
Chunked-pos (last piece pos small) = pos
Chunked-pos (more {rest = rest} piece pos small chunked) =
    omega (arith, length-append piece rest, pos)
