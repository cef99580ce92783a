-- ===== src/Delivery.antt =====
-- The client's `internal_v2_commandv` (client/client-v2.c) and the server's handling of what it
-- sends (server/server-v2.c, server/generic.c), together.
mod Tests
pub mod V1
use mathlib.Core.Path.{subst}
use remctl.Base.{
  suc, ◌≤◌, ◌<◌, ◌≡◌, refl, ap, ◌∙◌, Bool, false, List, [], ◌∷◌, ◌++◌, map, arith, length, Bytes,
}
use remctl.Base.Int.{ℤ}
use remctl.Protocol.{command_max_args, command_max_data, uint32_max}
use remctl.Protocol.Wire.{payload, FitsWire}
use remctl.Protocol.Chunks.{Chunked, header}
use remctl.Channel.{Channel, Received, token}
use remctl.Client.V2.{Commandv, ready, commandv}
use remctl.Client.V2.Reliable.{IsReliable, after}
use remctl.Client.V2.Send.{commandv-Chunked}
use remctl.Server.Session.{Client, M, Run, done, bind_done, client, ◌>>=◌, ◌>>◌}
use remctl.Server.Parse.{parsed, parse_command}
use remctl.Server.Parse.Complete.{parse_command-payload}
use remctl.Server.V2.{complete, collect, is_version}
use remctl.Server.V2.Collect.{resumed, first_token, collect-Chunked}
use remctl.Server.V2.Handle.{
  not_fatal, command_or_error, run_if_parsed, run_collected, handle_command, handle_token,
}

-- A command that the server accepts: 1 to `command_max_args` arguments, and a payload that stays
-- below `command_max_data`.
pub record IsAccepted (args : List Bytes) : Type 0 where
  pub some_args : 1 ≤ length args
  pub few_args : length args ≤ command_max_args
  pub small_args : FitsWire args
  pub small : length (payload args) < command_max_data

-- The server's client when the tokens are about to come in.
abbrev pub arriving : Client → List Bytes → List Received → Client
arriving c tokens rest = record c {
  channel = record c.channel { incoming = map token tokens ++ rest };
}

module _ (run_command : List Bytes → M ℤ) (args : List Bytes) (accepted : IsAccepted args) where
  run_complete :
      (c : Client)
      → run_collected run_command (complete (payload args)) c ≡ (run_command args >> not_fatal) c
  unfolding run_collected ◌>>=◌
  run_complete c =
      rw (parse_command-payload args accepted.some_args accepted.few_args accepted.small_args)

  handle_command-Chunked :
      (tok : Bytes) (tokens : List Bytes) (c : Client) (rest : List Received)
      → Chunked false (tok ∷ tokens) (payload args)
      → c.channel.incoming ≡ map token tokens ++ rest
      → handle_command run_command tok c ≡ (run_command args >> not_fatal) (resumed c rest)
  unfolding handle_command
  handle_command-Chunked tok tokens c rest chunked e =
      bind_done client _ c refl
      ∙ bind_done (collect (suc (length c.channel.incoming)) tok [] false)
          (run_collected run_command) c
          (collect-Chunked tok tokens (payload args) c rest chunked e accepted.small)
      ∙ run_complete (resumed c rest)

  deliver_first :
      (ch : Channel) (c : Client) (rest : List Received) (tokens : List Bytes)
      → Chunked false tokens (payload args)
      → commandv args ch ≡ (ready, after ch tokens)
      → (tok : Bytes) × (later : List Bytes) × (commandv args ch ≡ (ready, after ch (tok ∷ later)))
        × (handle_token run_command tok (arriving c later rest)
            ≡ (run_command args >> not_fatal) (resumed c rest))
  deliver_first ch c rest tokens chunked sends =
      let (k, piece, later, shape) = first_token chunked in
      let chunked' : Chunked false ((header k ++ piece) ∷ later) (payload args) =
        subst (λ ts. Chunked false ts (payload args)) shape chunked in
      (
        header k ++ piece,
        later,
        sends ∙ ap (λ ts. (ready, after ch ts)) shape,
        unfold handle_token is_version in
            handle_command-Chunked (header k ++ piece) later (arriving c later rest) rest chunked'
              refl,
      )

  -- The client sends the command, and the server runs it with the same arguments, once it has read
  -- what the client sent, whatever the server's client was before and whatever comes behind.
  pub command_delivered :
      (ch : Channel) (c : Client) (rest : List Received)
      → IsReliable ch
      → (tok : Bytes) × (tokens : List Bytes) × (commandv args ch
          ≡ (ready, after ch (tok ∷ tokens)))
        × (handle_token run_command tok (arriving c tokens rest)
            ≡ (run_command args >> not_fatal) (resumed c rest))
  command_delivered ch c rest reliable =
      let (tokens, chunked, sends) =
        commandv-Chunked args ch (omega (arith, accepted.few_args)) accepted.small_args reliable in
      deliver_first ch c rest tokens chunked sends
