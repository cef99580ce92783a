-- ===== src/Server/V2/Messages.antt =====
-- The messages that the server sends in protocol version two (server/server-v2.c).
use remctl.Base.{
  ℕ, suc, ◌-◌, Bool, true, false, [], ◌∷◌, ◌++◌, length, ltb, leb, if◌then◌else◌, Bytes, htonl,
}
use remctl.Base.Int.{ℤ, pos, negsuc}
use remctl.Protocol.{ErrorCode, error_number, TokenStatus, token_ok, uint32_max}
use remctl.Protocol.Message
use remctl.Server.Session.{M, died, pure, raise, set_fatal, send_token, ◌>>=◌, ◌>>◌}

-- The end of each function: success, or a fatal error.
unfoldable pub sent_or_fatal : TokenStatus → M Bool
sent_or_fatal token_ok = pure true
sent_or_fatal status = set_fatal true >> pure false

-- `stream` is never negative here: the callers pass 1 and 2.
unfoldable pub send_output : ℕ → Bytes → M Bool
unfolding sent_or_fatal
send_output stream output =
    if ltb 128 stream
    then raise died
    else if leb (uint32_max - 1 - 1 - 1 - 4) (length output)
    then raise died
    else (do
      status ← send_token (2 ∷ Message.output ∷ stream ∷ (htonl (length output) ++ output))
      sent_or_fatal status)

-- The octet for an exit status: -1 for what does not fit.
unfoldable pub status_octet : ℤ → ℕ
status_octet (pos n) = if ltb 255 n then 255 else n
status_octet (negsuc n) = if ltb 127 (suc n) then 255 else 256 - suc n

unfoldable pub command_finish : ℤ → M Bool
unfolding status_octet sent_or_fatal
command_finish exit_status = do
  status ← send_token (2 ∷ Message.status ∷ status_octet exit_status ∷ [])
  sent_or_fatal status

unfoldable pub send_error : ErrorCode → Bytes → M Bool
unfolding sent_or_fatal
send_error code message =
    if leb (uint32_max - 1 - 1 - 4 - 4) (length message) then raise died else (do
      status ←
          send_token
            (2 ∷ Message.error ∷ (htonl (error_number code) ++ htonl (length message) ++ message))
      sent_or_fatal status)

unfoldable pub send_version : M Bool
unfolding sent_or_fatal
send_version = do status ← send_token (2 ∷ Message.version ∷ 3 ∷ []); sent_or_fatal status

unfoldable pub send_noop : M Bool
unfolding sent_or_fatal
send_noop = do status ← send_token (3 ∷ Message.noop ∷ []); sent_or_fatal status
