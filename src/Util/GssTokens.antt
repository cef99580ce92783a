-- ===== src/Util/GssTokens.antt =====
-- Encrypted tokens (util/gss-tokens.c), over util/tokens.c and the functions of GSS-API with a
-- context.
pub mod Verified
mod Tests
use remctl.Base.{
  ℕ, ◌-◌, ◌/◌, ◌%◌, ◌*◌, Bool, true, false, not, ◌&&◌, ltb, ◌==◌, Option, none, some, length,
  if◌then◌else◌, Bytes,
}
use remctl.Protocol.{TokenStatus, token_ok, fail_large, fail_gssapi, fail_invalid, token_max_data}
use remctl.Util.Tokens.{Network, Reception, got, not_got, token_send, token_recv}

-- gss_wrap, gss_unwrap, gss_get_mic and gss_verify_mic; `none` and `false` are failures.
pub record Gss : Type 0 where
  pub gss_wrap : Bytes → Option Bytes
  pub gss_unwrap : Bytes → Option Bytes
  pub gss_get_mic : Bytes → Option Bytes
  pub gss_verify_mic : Bytes → Bytes → Bool

abbrev pub token_mic : ℕ
token_mic = 8

abbrev pub token_send_mic : ℕ
token_send_mic = 32

abbrev pub token_protocol : ℕ
token_protocol = 64

unfoldable pub has_flag : ℕ → ℕ → Bool
has_flag flag flags = flags / flag % 2 == 1

-- "As a hack to support remctl v1": a MIC is asked for.
unfoldable pub wants_mic : ℕ → Bool
unfolding has_flag
wants_mic flags = has_flag token_send_mic flags && not (has_flag token_protocol flags)

module _ {S : Type 0} (net : Network S) (gss : Gss) where
  open gss use {gss_wrap, gss_unwrap, gss_get_mic, gss_verify_mic}

  unfoldable pub check_mic : Bytes → Reception × S → TokenStatus × S
  check_mic tok (not_got status, s) = (status, s)
  check_mic tok (got micflags mic, s) =
      if not (micflags == token_mic)
      then (fail_invalid, s)
      else if gss_verify_mic tok mic
      then (token_ok, s)
      else (fail_gssapi, s)

  -- Behind a token that was sent.
  unfoldable pub await_mic : ℕ → Bytes → TokenStatus × S → TokenStatus × S
  unfolding check_mic
  await_mic flags tok (token_ok, s) =
      if wants_mic flags then check_mic tok (token_recv net (10 * 1024) s) else (token_ok, s)
  await_mic flags tok (status, s) = (status, s)

  unfoldable pub send_wrapped : ℕ → Bytes → Option Bytes → S → TokenStatus × S
  unfolding await_mic
  send_wrapped flags tok none s = (fail_gssapi, s)
  send_wrapped flags tok (some out) s = await_mic flags tok (token_send net flags out s)

  unfoldable pub token_send_priv : ℕ → Bytes → S → TokenStatus × S
  unfolding send_wrapped
  token_send_priv flags tok s =
      if ltb token_max_data (length tok)
      then (fail_large, s)
      else send_wrapped flags tok (gss_wrap tok) s

  -- The token is handed out once its MIC was sent.
  unfoldable pub sent_mic : ℕ → Bytes → TokenStatus × S → Reception × S
  sent_mic flags tok (token_ok, s) = (got (flags - token_send_mic) tok, s)
  sent_mic flags tok (status, s) = (not_got status, s)

  unfoldable pub answer_mic : ℕ → Bytes → Option Bytes → S → Reception × S
  unfolding sent_mic
  answer_mic flags tok none s = (not_got fail_gssapi, s)
  answer_mic flags tok (some mic) s = sent_mic flags tok (token_send net token_mic mic s)

  unfoldable pub unwrapped : ℕ → Option Bytes → S → Reception × S
  unfolding answer_mic
  unwrapped flags none s = (not_got fail_gssapi, s)
  unwrapped flags (some tok) s =
      if wants_mic flags then answer_mic flags tok (gss_get_mic tok) s else (got flags tok, s)

  unfoldable pub received_wrapped : Reception × S → Reception × S
  unfolding unwrapped
  received_wrapped (not_got status, s) = (not_got status, s)
  received_wrapped (got flags wrapped, s) = unwrapped flags (gss_unwrap wrapped) s

  unfoldable pub token_recv_priv : ℕ → S → Reception × S
  unfolding received_wrapped
  token_recv_priv max s = received_wrapped (token_recv net max s)
