-- ===== src/Server/Ssh/Messages.antt =====
-- The callbacks of server/server-ssh.c for errors and for the end of a command. `xwrite` writes all
-- of a buffer or fails, and so does `evbuffer_write` to a descriptor that blocks.
use remctl.Base.{ℕ, Bool, true, false, List, [], ◌∷◌, ◌++◌, ◌==◌, if◌then◌else◌, Bytes}
use remctl.Base.Int.{ℤ}
use remctl.Protocol.{ErrorCode}
use remctl.Server.Session.{Terminal, M, pure, client, set_terminal, set_fatal, ◌>>=◌, ◌>>◌}

-- The terminal with `bytes` on a descriptor: 1 is standard output, and 2 standard error.
unfoldable pub put : ℕ → Bytes → Terminal → Terminal
put fd bytes t =
    if fd == 1
    then record t { stdout = t.stdout ++ bytes }
    else record t { stderr = t.stderr ++ bytes }

-- A write that fails has written nothing.
unfoldable pub write_next : ℕ → Bytes → Terminal → List Bool → M Bool
unfolding put
write_next fd bytes t [] = set_terminal (put fd bytes t) >> pure true
write_next fd bytes t (taken ∷ writes) =
    if taken
    then set_terminal (put fd bytes (record t { writes = writes })) >> pure true
    else set_terminal (record t { writes = writes }) >> pure false

unfoldable pub write : ℕ → Bytes → M Bool
unfolding write_next
write fd bytes = do c ← client; write_next fd bytes c.terminal c.terminal.writes

unfoldable pub send_error : ErrorCode → Bytes → M Bool
send_error code message = do
  has_message ← write 2 message
  has_newline ← if has_message then write 2 (10 ∷ []) else pure false
  (if has_newline then pure true else set_fatal true >> pure false)

unfoldable pub command_finish : Bytes → ℤ → M Bool
command_finish output exit_status = pure true
