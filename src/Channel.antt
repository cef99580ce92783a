-- ===== src/Channel.antt =====
-- A connection after the GSS-API context is set up, as `token_send_priv` and `token_recv_priv` of
-- util/gss-tokens.c show it to the protocol code with the flags TOKEN_DATA | TOKEN_PROTOCOL. What
-- GSS-API and the network answer are inputs: one outcome for each send that they are asked for
-- (TOKEN_OK where the list has run out), and one result for each receive (end of file then).
use remctl.Base.{List, [], ◌∷◌, ◌++◌, length, ltb, if◌then◌else◌, Bytes}
use remctl.Protocol.{TokenStatus, token_ok, fail_large, fail_eof, token_max_data}

pub data Received : Type 0 where
  token : Bytes → Received
  failed : TokenStatus → Received

pub record Channel : Type 0 where
  pub sent : List Bytes
  pub outcomes : List TokenStatus
  pub incoming : List Received

-- What is left of a send behind the size test: wrapping and writing.
unfoldable pub transmit : Bytes → List TokenStatus → Channel → TokenStatus × Channel
transmit tok [] ch = (token_ok, record ch { sent = ch.sent ++ tok ∷ [] })
transmit tok (token_ok ∷ rest) ch =
    (token_ok, record ch { sent = ch.sent ++ tok ∷ []; outcomes = rest })
transmit tok (status ∷ rest) ch = (status, record ch { outcomes = rest })

unfoldable pub token_send_priv : Bytes → Channel → TokenStatus × Channel
unfolding transmit
token_send_priv tok ch =
    if ltb token_max_data (length tok) then (fail_large, ch) else transmit tok ch.outcomes ch

unfoldable pub deliver : List Received → Channel → Received × Channel
deliver [] ch = (failed fail_eof, ch)
deliver (r ∷ rest) ch = (r, record ch { incoming = rest })

unfoldable pub token_recv_priv : Channel → Received × Channel
unfolding deliver
token_recv_priv ch = deliver ch.incoming ch
