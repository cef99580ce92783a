-- ===== src/Util/GssTokens/Tests.antt =====
-- A connection of two lists of octets, and tokens on it.
use remctl.Base.{
  ℕ, ◌≡◌, ◌≤◌, refl, true, false, Option, none, some, [], ◌∷◌, ◌++◌, length, length-append, take,
  drop, take-length-append, drop-length-append, ltb, le→not_ltb, same, if◌then◌else◌, Bytes, codes,
  htonl, ntohl, arith,
}
use remctl.Protocol.{token_ok, token_max_data}
use remctl.Util.Tokens.{
  Network, Errno, epipe, Octets, octets, read_error, got, token_octets, write_status, token_send,
  token_recv,
}
use remctl.Util.Tokens.Framed.{IsStream}
use remctl.Util.GssTokens.{Gss, token_mic, wants_mic, token_send_priv, token_recv_priv}
use remctl.Util.GssTokens.Verified.{IsInverse, priv_token_delivered, token_send_priv-verified}

-- What is to come, and what was written.
record Pipe : Type 0 where
  incoming : Bytes
  outgoing : Bytes

abbrev pipe_write : Bytes → Pipe → Option Errno × Pipe
pipe_write bytes s = (none, record s { outgoing = s.outgoing ++ bytes })

abbrev pipe_read : ℕ → Pipe → Octets × Pipe
pipe_read n s =
    if ltb (length s.incoming) n
    then (read_error epipe, s)
    else (octets (take n s.incoming), record s { incoming = drop n s.incoming })

abbrev pipe : Network Pipe
pipe = record { network_write = pipe_write; network_read = pipe_read }

pipe_reads :
    (s : Pipe) (front rest : Bytes)
    → s.incoming ≡ front ++ rest
    → (s' : Pipe) × (pipe_read (length front) s ≡ (octets front, s')) × (s'.incoming ≡ rest)
pipe_reads s front rest e = (
  record s { incoming = rest },
  rw
      (
        e,
        le→not_ltb (length (front ++ rest)) (length front)
            (omega (arith, length-append front rest)),
        take-length-append front rest,
        drop-length-append front rest,
      )
      refl,
  refl,
)

pipe-IsStream : IsStream pipe (λ s. s.incoming)
pipe-IsStream = record { reads = pipe_reads }

-- A wrapped token has one octet more.
abbrev unwrap : Bytes → Option Bytes
unwrap [] = none
unwrap (x ∷ tok) = some tok

abbrev plain : Gss
plain = record {
  gss_wrap = λ tok. some (9 ∷ tok);
  gss_unwrap = unwrap;
  gss_get_mic = λ tok. some tok;
  gss_verify_mic = same;
}

plain_unwraps : (tok out : Bytes) → some (9 ∷ tok) ≡ some out → unwrap out ≡ some tok
plain_unwraps tok [] e = absurd (cc e)
plain_unwraps tok (x ∷ out) e = cc e

plain-IsInverse : IsInverse plain
plain-IsInverse = record { unwraps = plain_unwraps }

abbrev empty_pipe : Pipe
empty_pipe = record { incoming = []; outgoing = [] }

-- TOKEN_DATA | TOKEN_PROTOCOL.
abbrev new_flags : ℕ
new_flags = 68

abbrev full_pipe : Pipe
full_pipe = record { incoming = token_octets new_flags (9 ∷ codes "hi") ++ 1 ∷ []; outgoing = [] }

new_unasked : wants_mic new_flags ≡ false
unfolding wants_mic
new_unasked = refl

priv_token_delivered_example :
    (token_send_priv pipe plain new_flags (codes "hi") empty_pipe ≡ (
      let (failed, w') = pipe.network_write (token_octets new_flags (9 ∷ codes "hi")) empty_pipe in
      (write_status failed, w')))
    × (s' : Pipe) × (token_recv_priv pipe plain 1024 full_pipe ≡ (got new_flags (codes "hi"), s'))
    × (s'.incoming ≡ 1 ∷ [])
priv_token_delivered_example =
    priv_token_delivered pipe (λ s. s.incoming) pipe-IsStream plain plain-IsInverse 1024 new_flags
      (codes "hi") (9 ∷ codes "hi") (1 ∷ []) empty_pipe full_pipe refl new_unasked (omega arith)
      (omega arith) (omega arith) (omega arith) refl

-- TOKEN_DATA | TOKEN_SEND_MIC.
abbrev old_flags : ℕ
old_flags = 36

old_asked : wants_mic old_flags ≡ true
unfolding wants_mic
old_asked = refl

-- The other side's MIC is to come.
abbrev mic_pipe : Pipe
mic_pipe = record { incoming = 8 ∷ 0 ∷ 0 ∷ 0 ∷ 2 ∷ codes "hi"; outgoing = [] }

abbrev told_pipe : Pipe
told_pipe = record { incoming = []; outgoing = 36 ∷ 0 ∷ 0 ∷ 0 ∷ 3 ∷ 9 ∷ codes "hi" }

mic_sent : token_send_priv pipe plain old_flags (codes "hi") mic_pipe ≡ (token_ok, told_pipe)
unfolding token_send_priv token_send wants_mic token_recv ntohl same htonl
mic_sent = refl

token_send_priv-verified_example :
    (2 ≤ token_max_data)
    × (out : Bytes) × (plain.gss_wrap (codes "hi") ≡ some out)
    × (sent : Pipe) × (token_send pipe old_flags out mic_pipe ≡ (token_ok, sent))
    × (mic : Bytes) × (token_recv pipe 10240 sent ≡ (got token_mic mic, told_pipe))
    × (same (codes "hi") mic ≡ true)
token_send_priv-verified_example =
    token_send_priv-verified pipe plain old_flags (codes "hi") mic_pipe told_pipe old_asked mic_sent
