-- ===== src/Server/V2/Handle.antt =====
-- The handlers of server/server-v2.c, over what runs a command (`server_run_command`).
use remctl.Base.{
  ℕ, zero, suc, Bool, true, false, not, Option, none, some, List, [], ◌∷◌, length, ◌==◌,
  if◌then◌else◌, Bytes, codes,
}
use remctl.Base.Int.{ℤ}
use remctl.Protocol.{unknown_message}
use remctl.Protocol.Message
use remctl.Channel.{token, failed}
use remctl.Server.Session.{M, overread, spent, pure, raise, client, set_keepalive, ◌>>=◌, ◌>>◌}
use remctl.Server.Parse.{Parsed, parsed, refused, parse_command}
use remctl.Server.Callbacks.{error}
use remctl.Server.V2.Messages.{send_version, send_noop}
use remctl.Server.V2.{read_token, is_version, Collected, complete, abandoned, collect}

-- `server_parse_command` with its effects: the error is sent, and the result is NULL.
unfoldable pub command_or_error : Parsed → M (Option (List Bytes))
command_or_error (parsed argv) = pure (some argv)
command_or_error (refused code message) = error code message >> pure none
command_or_error Parsed.overread = raise overread

unfoldable pub not_fatal : M Bool
not_fatal = do c ← client; pure (not c.fatal)

module _ (run_command : List Bytes → M ℤ) where
  unfoldable pub run_if_parsed : Option (List Bytes) → M Bool
  unfolding not_fatal
  run_if_parsed none = not_fatal
  run_if_parsed (some argv) = run_command argv >> not_fatal

  unfoldable pub run_collected : Collected → M Bool
  unfolding command_or_error run_if_parsed
  run_collected (abandoned result) = do c ← client; pure (if c.fatal then false else result)
  run_collected (complete buffer) = do
    argv ← command_or_error (parse_command buffer)
    run_if_parsed argv

  -- Each token that is read is one of those to come, so their number is fuel enough.
  unfoldable pub handle_command : Bytes → M Bool
  unfolding run_collected
  handle_command tok = do
    c ← client
    collected ← collect (suc (length c.channel.incoming)) tok [] false
    run_collected collected

  unfoldable pub handle_token : Bytes → M Bool
  handle_token (p0 ∷ p1 ∷ rest) =
      if not (is_version p0)
      then send_version
      else if p1 == Message.command
      then handle_command (p0 ∷ p1 ∷ rest)
      else if p1 == Message.noop
      then send_noop
      else if p1 == Message.quit
      then set_keepalive false >> pure false
      else error unknown_message (codes "Unknown message")
  handle_token short = raise overread

  -- The loop of `server_v2_handle_messages`.
  unfoldable pub serve : ℕ → M (Unit {0})
  serve zero = raise spent
  serve (suc fuel) = do
    r ← read_token
    elim r [
      | failed status ↦ pure tt
      | token tok ↦
          (handle_token tok >>= λ go_on.
          if go_on
          then (client >>= λ c. elim c.keepalive [ true ↦ serve fuel | false ↦ pure tt ])
          else pure tt)
    ]

  unfoldable pub handle_messages : M (Unit {0})
  handle_messages = do set_keepalive true; c ← client; serve (suc (length c.channel.incoming))
