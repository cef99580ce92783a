-- ===== src/Server/V1/Messages.antt =====
-- `server_v1_send_output` and `server_v1_send_error` of server/server-v1.c.
use remctl.Base.{◌-◌, Bool, true, false, [], ◌∷◌, ◌++◌, length, leb, if◌then◌else◌, Bytes, htonl}
use remctl.Base.Int.{ℤ, negsuc, to_uint32}
use remctl.Protocol.{ErrorCode, TokenStatus, token_ok, uint32_max}
use remctl.Server.Session.{M, died, pure, raise, send_token, ◌>>=◌}

abbrev pub sent : TokenStatus → Bool
sent token_ok = true
sent status = false

unfoldable pub send_output : Bytes → ℤ → M Bool
send_output output exit_status =
    if leb (uint32_max - 4 - 4) (length output) then raise died else (do
      status ← send_token (htonl (to_uint32 exit_status) ++ htonl (length output) ++ output)
      pure (sent status))

-- The code of the error is not sent; the message ends in a newline.
unfoldable pub send_error : ErrorCode → Bytes → M Bool
unfolding send_output
send_error code message = send_output (message ++ b'\n' ∷ []) (negsuc 0)
