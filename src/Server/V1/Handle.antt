-- ===== src/Server/V1/Handle.antt =====
-- `server_v1_handle_messages` of server/server-v1.c, over what runs a command: one token with one
-- command.
use remctl.Base.{
  ◌≡◌, ◌≤◌, refl, ◌∙◌, ap, Option, none, some, List, ◌∷◌, length, ltb, le→not_ltb, if◌then◌else◌,
  Bytes, codes,
}
use remctl.Base.Int.{ℤ}
use remctl.Protocol.{
  TokenStatus, fail_large, fail_eof, toomuch_data, bad_token, token_max_data, command_max_args,
}
use remctl.Protocol.Wire.{payload, FitsWire}
use remctl.Channel.{Received, token, failed, token_recv_priv, deliver}
use remctl.Server.Session.{Client, M, done, pure, recv_token, bind_done, ◌>>=◌, ◌>>◌}
use remctl.Server.Callbacks.{error}
use remctl.Server.Parse.{parse_command}
use remctl.Server.Parse.Complete.{parse_command-payload}
use remctl.Server.V2.Handle.{command_or_error}

-- How a token that did not come is answered.
unfoldable pub answer_failed : TokenStatus → M (Unit {0})
answer_failed fail_large = error toomuch_data (codes "Too much data") >> pure tt
answer_failed fail_eof = pure tt
answer_failed status = error bad_token (codes "Invalid token") >> pure tt

-- The client once its next token has come in.
abbrev pub received : Client → List Received → Client
received c rest = record c { channel = record c.channel { incoming = rest } }

recv_token-incoming :
    (c : Client) (r : Received) (rest : List Received)
    → c.channel.incoming ≡ r ∷ rest
    → recv_token c ≡ done r (received c rest)
unfolding recv_token token_recv_priv deliver
recv_token-incoming c r rest e =
    ap (λ rs. let (next, ch) = deliver rs c.channel in done next (record c { channel = ch })) e

module _ (run_command : List Bytes → M ℤ) where
  unfoldable pub run_parsed : Option (List Bytes) → M (Unit {0})
  run_parsed none = pure tt
  run_parsed (some argv) = run_command argv >> pure tt

  unfoldable pub handle_received : Received → M (Unit {0})
  unfolding answer_failed run_parsed command_or_error
  handle_received (failed status) = answer_failed status
  handle_received (token tok) =
      if ltb token_max_data (length tok)
      then error toomuch_data (codes "Too much data") >> pure tt
      else (command_or_error (parse_command tok) >>= run_parsed)

  unfoldable pub server_v1_handle_messages : M (Unit {0})
  unfolding handle_received
  server_v1_handle_messages = do r ← recv_token; handle_received r

  received_payload :
      (args : List Bytes) (c : Client)
      → 1 ≤ length args
      → length args ≤ command_max_args
      → FitsWire args
      → length (payload args) ≤ token_max_data
      → handle_received (token (payload args)) c ≡ (run_command args >> pure tt) c
  unfolding handle_received command_or_error run_parsed ◌>>=◌
  received_payload args c some_args few fits small =
      rw
        (
          le→not_ltb token_max_data (length (payload args)) small,
          parse_command-payload args some_args few fits,
        )
        refl

  -- A command of 1 to COMMAND_MAX_ARGS arguments whose payload is one token of at most
  -- TOKEN_MAX_DATA octets is run with exactly its arguments, and nothing else is read.
  pub server_v1_handle_messages-payload :
      (args : List Bytes) (c : Client) (rest : List Received)
      → 1 ≤ length args
      → length args ≤ command_max_args
      → FitsWire args
      → length (payload args) ≤ token_max_data
      → c.channel.incoming ≡ token (payload args) ∷ rest
      → server_v1_handle_messages c ≡ (run_command args >> pure tt) (received c rest)
  unfolding server_v1_handle_messages
  server_v1_handle_messages-payload args c rest some_args few fits small e =
      bind_done recv_token handle_received c (recv_token-incoming c (token (payload args)) rest e)
      ∙ received_payload args (received c rest) some_args few fits small
