-- ===== src/Client/V2.antt =====
-- `internal_v2_commandv` of client/client-v2.c: a command cut into tokens.
mod Fill
pub mod Reliable
pub mod Round
pub mod Send
pub mod Output
pub mod Messages
pub mod Tests
use remctl.Base.{
  ℕ, zero, suc, ◌+◌, ◌-◌, ◌&&◌, ◌||◌, Bool, true, false, Option, none, some, List, [], ◌∷◌, ◌++◌,
  length, take, drop, ltb, leb, ◌==◌, if◌then◌else◌, Bytes, htonl,
}
use remctl.Protocol.{TokenStatus, token_ok, token_max_data, uint32_max}
use remctl.Protocol.Message
use remctl.Channel.{Channel, token_send_priv}

-- The variables of the inner loop: what it has written behind `p`, the arguments from `iov` on,
-- how much of the first of them is sent, and the room left in the token.
pub record Filled : Type 0 where
  pub written : Bytes
  pub args : List Bytes
  pub offset : ℕ
  pub left : ℕ

pub prepend : Bytes → Option Filled → Option Filled
prepend bytes none = none
prepend bytes (some f) = some (record f { written = bytes ++ f.written })

-- The part of the inner loop's body that copies argument data; `next` is the next round.
pub copy : (ℕ → Option Filled) → Bytes → List Bytes → ℕ → ℕ → Option Filled
copy next arg args offset left =
    let delta = if leb (length arg - offset) left then length arg - offset else left in
    let piece = take delta (drop offset arg) in
    if ltb (offset + delta) (length arg)
    then some (record {
      written = piece;
      args = arg ∷ args;
      offset = offset + delta;
      left = left - delta;
    })
    else prepend piece (next (left - delta))

-- The body of the inner loop. `none` is the error "command component too long".
pub round : (ℕ → Option Filled) → Bytes → List Bytes → ℕ → ℕ → Option Filled
round next arg args offset left =
    if offset == 0
    then (if ltb left 4 || (ltb left 5 && ltb 0 (length arg))
        then some (record { written = []; args = arg ∷ args; offset = 0; left = left })
        else if ltb uint32_max (length arg)
        then none
        else prepend (htonl (length arg)) (copy next arg args 0 (left - 4)))
    else copy next arg args offset left

-- The inner loop.
pub fill : List Bytes → ℕ → ℕ → Option Filled
fill [] offset left = some (record { written = []; args = []; offset = offset; left = left })
fill (arg ∷ args) offset left = round (fill args 0) arg args offset left

-- The result of `internal_v2_commandv` and why it failed.
pub data Commandv : Type 0 where
  ready : Commandv
  too_many_arguments component_too_long spent : Commandv
  not_sent : TokenStatus → Commandv

-- The total length of the message.
pub message_length : List Bytes → ℕ
message_length [] = 4
message_length (arg ∷ args) = 4 + length arg + message_length args

pub token_size : ℕ → ℕ
token_size unsent = if ltb (token_max_data - 4) unsent then token_max_data else unsent + 4

pub continue_status : ℕ → ℕ → ℕ
continue_status unsent sent =
    if token_size unsent == unsent + 4
    then (if sent == 0 then 0 else 3)
    else (if sent == 0 then 1 else 2)

-- Argument count if nothing is sent yet.
pub start : ℕ → ℕ → Bytes
start count sent = if sent == 0 then htonl count else []

-- The outer loop goes on only after a send that succeeded.
pub go_on : (Channel → Commandv × Channel) → TokenStatus × Channel → Commandv × Channel
go_on next (token_ok, ch) = next ch
go_on next (status, ch) = (not_sent status, ch)

-- The outer loop: `while (sent < length)`, on fuel.
pub send_tokens : ℕ → ℕ → ℕ → List Bytes → ℕ → ℕ → Channel → Commandv × Channel
send_tokens zero count total args offset sent ch = (spent, ch)
send_tokens (suc fuel) count total args offset sent ch =
    let first = start count sent in
    let body : Commandv × Channel =
      elim (fill args offset (token_size (total - sent) - 4 - length first)) [
        | none ↦ (component_too_long, ch)
        | some f ↦
            (let bytes = first ++ f.written in
              let tok = 2 ∷ Message.command ∷ 1 ∷ continue_status (total - sent) sent ∷ bytes in
              go_on (send_tokens fuel count total f.args f.offset (sent + length bytes))
                (token_send_priv tok ch))
      ] in
    if ltb sent total then body else (ready, ch)

-- Each round sends at least one octet, so the length of the message is fuel enough.
pub commandv : List Bytes → Channel → Commandv × Channel
commandv command ch =
    if ltb uint32_max (length command)
    then (too_many_arguments, ch)
    else send_tokens (suc (message_length command)) (length command) (message_length command)
        command 0 0 ch
