-- ===== src/Util/GssTokens/Verified.antt =====
-- What a token that was sent with success says, and how it is received.
use remctl.Base.{
  ℕ, ◌*◌, ◌≡◌, ◌≢◌, ◌≤◌, ◌<◌, refl, ap, ◌∙◌, Bool, true, false, Bool-cases, inl, inr, ltb,
  le→not_ltb, ◌-◌, ◌==◌, ==_iff, Option, none, some, ◌++◌, length, if◌then◌else◌, Bytes, [], ◌∷◌,
  ntohl, arith,
}
use remctl.Protocol.{
  TokenStatus, token_ok, fail_system, fail_socket, fail_invalid, fail_large, fail_eof, fail_gssapi,
  fail_timeout, token_max_data, uint32_max,
}
use remctl.Util.Tokens.{
  Network, Errno, epipe, econnreset, etimedout, other_error, Octets, octets, read_error,
  map_socket_error, Reception, got, not_got, token_octets, write_status, token_send, receive_data,
  received_data, received_length, received_flags, token_recv,
}
use remctl.Util.Tokens.Framed.{IsStream, token_recv-token_octets}
use remctl.Util.GssTokens.{
  Gss, token_mic, wants_mic, check_mic, await_mic, send_wrapped, token_send_priv, unwrapped,
  received_wrapped, token_recv_priv,
}

-- A reception that fails has a status that says so.
abbrev Fails : Reception → Type 0
Fails (got flags tok) = Unit {0}
Fails (not_got token_ok) = ⊥
Fails (not_got fail_system) = Unit {0}
Fails (not_got fail_socket) = Unit {0}
Fails (not_got fail_invalid) = Unit {0}
Fails (not_got fail_large) = Unit {0}
Fails (not_got fail_eof) = Unit {0}
Fails (not_got fail_gssapi) = Unit {0}
Fails (not_got fail_timeout) = Unit {0}

map_socket_error-Fails : (errno : Errno) → Fails (not_got (map_socket_error errno))
unfolding map_socket_error
map_socket_error-Fails epipe = tt
map_socket_error-Fails econnreset = tt
map_socket_error-Fails etimedout = tt
map_socket_error-Fails other_error = tt

Fails-if :
    {S : Type 0} (b : Bool) (x y : Reception × S)
    → Fails x.0
    → Fails y.0
    → Fails (if b then x else y).0
Fails-if true x y hx hy = hx
Fails-if false x y hx hy = hy

module _ {S : Type 0} (net : Network S) where
  received_data-Fails : (flags : ℕ) (read : Octets × S) → Fails (received_data net flags read).0
  unfolding received_data
  received_data-Fails flags (octets tok, s) = tt
  received_data-Fails flags (read_error errno, s) = map_socket_error-Fails errno

  received_length-Fails :
      (max flags : ℕ) (read : Octets × S) → Fails (received_length net max flags read).0
  unfolding received_length receive_data
  received_length-Fails max flags (octets bytes, s) = Fails-if (ltb max (ntohl bytes)) _ _ tt (
      Fails-if (ntohl bytes == 0) _ _ tt
        (received_data-Fails flags (net.network_read (ntohl bytes) s)))
  received_length-Fails max flags (read_error errno, s) = map_socket_error-Fails errno

  received_flags-Fails : (max : ℕ) (read : Octets × S) → Fails (received_flags net max read).0
  unfolding received_flags
  received_flags-Fails max (octets [], s) = tt
  received_flags-Fails max (octets (flags ∷ rest), s) =
      received_length-Fails max flags (net.network_read 4 s)
  received_flags-Fails max (read_error errno, s) = map_socket_error-Fails errno

  token_recv-Fails : (max : ℕ) (s : S) → Fails (token_recv net max s).0
  unfolding token_recv
  token_recv-Fails max s = received_flags-Fails max (net.network_read 1 s)

failed_status : (status : TokenStatus) → Fails (not_got status) → status ≢ token_ok
failed_status token_ok h e = h
failed_status fail_system h e = cc e
failed_status fail_socket h e = cc e
failed_status fail_invalid h e = cc e
failed_status fail_large h e = cc e
failed_status fail_eof h e = cc e
failed_status fail_gssapi h e = cc e
failed_status fail_timeout h e = cc e

module _ {S : Type 0} (net : Network S) (gss : Gss) where
  -- What comes in at `sent` is a MIC that belongs to the token, and leaves `s`.
  abbrev Confirmed : Bytes → S → S → Type 0
  Confirmed tok sent s =
      (mic : Bytes) × (token_recv net (10 * 1024) sent ≡ (got token_mic mic, s))
      × (gss.gss_verify_mic tok mic ≡ true)

  checked :
      (tok : Bytes) (sent s : S) (answer : Reception × S)
      → Fails answer.0
      → token_recv net (10 * 1024) sent ≡ answer
      → check_mic net gss tok answer ≡ (token_ok, s)
      → Confirmed tok sent s
  unfolding check_mic
  checked tok sent s (not_got status, s') fails e h =
      absurd (failed_status status fails (ap (λ x. x.0) h))
  checked tok sent s (got micflags mic, s') fails e h = elim (Bool-cases (micflags == token_mic)) [
    | inl right ↦ (elim (Bool-cases (gss.gss_verify_mic tok mic)) [
      | inl verifies ↦ (
        mic,
        e
            ∙ ap (λ f. (got f mic, s')) ((==_iff micflags token_mic).0 right)
            ∙ ap (λ (x : TokenStatus × S). (got token_mic mic, x.1)) (rw (right, verifies) at h),
        verifies,
      )
      | inr wrong ↦ absurd (cc (rw (right, wrong) at h))
    ])
    | inr other ↦ absurd (cc (rw other at h))
  ]

  -- The token was wrapped and sent with success, which leaves a state in which the MIC comes in.
  abbrev SentAndConfirmed : ℕ → Bytes → Bytes → S → S → Type 0
  SentAndConfirmed flags tok out s s' =
      (sent : S) × (token_send net flags out s ≡ (token_ok, sent)) × Confirmed tok sent s'

  awaited :
      (flags : ℕ) (tok out : Bytes) (s s' : S) (sent : TokenStatus × S)
      → wants_mic flags ≡ true
      → token_send net flags out s ≡ sent
      → await_mic net gss flags tok sent ≡ (token_ok, s')
      → SentAndConfirmed flags tok out s s'
  unfolding await_mic
  awaited flags tok out s s' (token_ok, w) wants e h = (
    w,
    e,
    checked tok w s' (token_recv net (10 * 1024) w) (token_recv-Fails net (10 * 1024) w) refl
        (rw wants at h),
  )
  awaited flags tok out s s' (fail_system, w) wants e h = absurd (cc (ap (λ x. x.0) h))
  awaited flags tok out s s' (fail_socket, w) wants e h = absurd (cc (ap (λ x. x.0) h))
  awaited flags tok out s s' (fail_invalid, w) wants e h = absurd (cc (ap (λ x. x.0) h))
  awaited flags tok out s s' (fail_large, w) wants e h = absurd (cc (ap (λ x. x.0) h))
  awaited flags tok out s s' (fail_eof, w) wants e h = absurd (cc (ap (λ x. x.0) h))
  awaited flags tok out s s' (fail_gssapi, w) wants e h = absurd (cc (ap (λ x. x.0) h))
  awaited flags tok out s s' (fail_timeout, w) wants e h = absurd (cc (ap (λ x. x.0) h))

  wrapped :
      (flags : ℕ) (tok : Bytes) (wrapping : Option Bytes) (s s' : S)
      → wants_mic flags ≡ true
      → send_wrapped net gss flags tok wrapping s ≡ (token_ok, s')
      → (out : Bytes) × (wrapping ≡ some out) × SentAndConfirmed flags tok out s s'
  unfolding send_wrapped
  wrapped flags tok none s s' wants h = absurd (cc (ap (λ x. x.0) h))
  wrapped flags tok (some out) s s' wants h =
      (out, refl, awaited flags tok out s s' (token_send net flags out s) wants refl h)

  -- A token that is sent with a MIC asked for, as in protocol version one, is sent with success only
  -- where it has at most TOKEN_MAX_DATA octets, gss_wrap wraps it, token_send sends the wrapped token
  -- with its flags and with success, and what token_recv receives then, in the state that this send
  -- has left, is a token of the flag TOKEN_MIC whose data gss_verify_mic takes for the token; nothing
  -- else is done behind it.
  pub token_send_priv-verified :
      (flags : ℕ) (tok : Bytes) (s s' : S)
      → wants_mic flags ≡ true
      → token_send_priv net gss flags tok s ≡ (token_ok, s')
      → (length tok ≤ token_max_data)
        × (out : Bytes) × (gss.gss_wrap tok ≡ some out)
        × (sent : S) × (token_send net flags out s ≡ (token_ok, sent))
        × (mic : Bytes) × (token_recv net (10 * 1024) sent ≡ (got token_mic mic, s'))
        × (gss.gss_verify_mic tok mic ≡ true)
  unfolding token_send_priv
  token_send_priv-verified flags tok s s' wants h =
      elim (Bool-cases (ltb token_max_data (length tok))) [
        | inl large ↦ absurd (cc (ap (λ x. x.0) (rw large at h)))
        | inr small ↦
            (let (out, wraps, (sent, sends, (mic, receives, verifies))) =
                wrapped flags tok (gss.gss_wrap tok) s s' wants (rw small at h) in
              (ground arith, out, wraps, sent, sends, mic, receives, verifies))
      ]

-- What GSS-API unwraps is what was wrapped.
pub record IsInverse (gss : Gss) : Type 0 where
  pub unwraps : (tok out : Bytes) → gss.gss_wrap tok ≡ some out → gss.gss_unwrap out ≡ some tok

module _ {S : Type 0} (net : Network S) (pending : S → Bytes) (stream : IsStream net pending)
    (gss : Gss) (inverse : IsInverse gss) where
  unasked_mic :
      (flags : ℕ) (tok : Bytes) (sent : TokenStatus × S)
      → wants_mic flags ≡ false
      → await_mic net gss flags tok sent ≡ sent
  unfolding await_mic
  unasked_mic flags tok (token_ok, s) e = rw e refl
  unasked_mic flags tok (fail_system, s) e = refl
  unasked_mic flags tok (fail_socket, s) e = refl
  unasked_mic flags tok (fail_invalid, s) e = refl
  unasked_mic flags tok (fail_large, s) e = refl
  unasked_mic flags tok (fail_eof, s) e = refl
  unasked_mic flags tok (fail_gssapi, s) e = refl
  unasked_mic flags tok (fail_timeout, s) e = refl

  sent_octets :
      (flags : ℕ) (tok out : Bytes) (w : S)
      → gss.gss_wrap tok ≡ some out
      → wants_mic flags ≡ false
      → length tok ≤ token_max_data
      → length out ≤ uint32_max - 5
      → token_send_priv net gss flags tok w ≡ (
          let (failed, w') = net.network_write (token_octets flags out) w in
          (write_status failed, w'))
  unfolding token_send_priv send_wrapped token_send
  sent_octets flags tok out w wraps unasked small fits =
      rw (le→not_ltb token_max_data (length tok) small, wraps)
        (unasked_mic flags tok (token_send net flags out w) unasked
          ∙ rw (le→not_ltb (uint32_max - 1 - 4) (length out) fits) refl)

  -- Where no MIC is asked for, a token of at most TOKEN_MAX_DATA octets is sent by one write of the
  -- octets of the wrapped token, and from these, on a connection that hands out its octets in order,
  -- the same token with its flags is received, where the wrapped token is within the receiver's limit;
  -- what lies behind is still to come.
  pub priv_token_delivered :
      (max flags : ℕ) (tok out rest : Bytes) (w s : S)
      → gss.gss_wrap tok ≡ some out
      → wants_mic flags ≡ false
      → flags < 256
      → length tok ≤ token_max_data
      → length out ≤ max
      → length out ≤ uint32_max - 5
      → pending s ≡ token_octets flags out ++ rest
      → (token_send_priv net gss flags tok w ≡ (
          let (failed, w') = net.network_write (token_octets flags out) w in
          (write_status failed, w')))
        × (s' : S) × (token_recv_priv net gss max s ≡ (got flags tok, s'))
        × (pending s' ≡ rest)
  unfolding token_recv_priv received_wrapped unwrapped
  priv_token_delivered max flags tok out rest w s wraps unasked octet small limit fits e =
      let (s', received, left) =
        token_recv-token_octets net pending stream max flags out rest s octet limit (omega arith)
          e in
      (
        sent_octets flags tok out w wraps unasked small fits,
        s',
        rw (received, inverse.unwraps tok out wraps, unasked) refl,
        left,
      )
