-- ===== src/Delivery/V1.antt =====
-- The client's `internal_v1_commandv` (client/client-v1.c) and the server's handling of what it
-- sends (server/server-v1.c), together.
use remctl.Base.{refl, ◌≤◌, ◌≡◌, ◌∷◌, List, length, true, Bytes}
use remctl.Base.Int.{ℤ}
use remctl.Protocol.{command_max_args, token_max_data}
use remctl.Protocol.Wire.{payload, FitsWire}
use remctl.Channel.{Received, token}
use remctl.Client.V2.Reliable.{IsReliable}
use remctl.Client.Session.{Remctl}
use remctl.Client.V1.{internal_v1_commandv}
use remctl.Client.V1.Sent.{asked, internal_v1_commandv-payload}
use remctl.Server.Session.{Client, M, pure, ◌>>◌}
use remctl.Server.V1.Handle.{received, server_v1_handle_messages, server_v1_handle_messages-payload}

-- In protocol version one, a command of 1 to COMMAND_MAX_ARGS arguments whose payload is at most
-- TOKEN_MAX_DATA octets is sent, over a channel that takes every token, as one token, from which
-- the server runs the command with exactly its arguments.
pub command_delivered_v1 :
    (run_command : List Bytes → M ℤ) (r : Remctl) (c : Client) (args : List Bytes)
    (rest : List Received)
    → 1 ≤ length args
    → length args ≤ command_max_args
    → FitsWire args
    → length (payload args) ≤ token_max_data
    → IsReliable r.world.channel
    → (tok : Bytes) × (internal_v1_commandv r args ≡ (true, asked r tok))
      × (server_v1_handle_messages run_command (received c (token tok ∷ rest))
          ≡ (run_command args >> pure tt) (received c rest))
command_delivered_v1 run_command r c args rest some_args few fits small reliable = (
  payload args,
  internal_v1_commandv-payload r args few fits small reliable,
  server_v1_handle_messages-payload run_command args (received c (token (payload args) ∷ rest)) rest
      some_args few fits small refl,
)
