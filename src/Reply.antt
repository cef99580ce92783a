-- ===== src/Reply.antt =====
-- What the server answers in protocol version two, as the client reads it.
mod Tests
pub mod V1
pub mod Run
pub mod Program
use remctl.Base.{
  ℕ, suc, ◌+◌, ◌-◌, ◌≡◌, ◌≤◌, ◌<◌, ◌⊎◌, ◌↔◌, inl, inr, refl, sym, ap, ◌∙◌, Bool, true, false,
  Bool-cases, ltb→lt, lt→ltb, Option, none, some, List, [], ◌∷◌, ◌++◌, length, length-append,
  length-htonl, ntohl-htonl, drop-length-append, leb, ltb, ==_refl, le→not_ltb, lt→not_leb, ◌==◌,
  if◌then◌else◌, Bytes, htonl, ntohl, arith,
}
use remctl.Base.Int.{ℤ, pos, negsuc}
use remctl.Protocol.{
  ErrorCode, internal, bad_token, unknown_message, bad_command, unknown_command, access,
  toomany_args, toomuch_data, unexpected_message, no_help, error_number, token_ok, token_max_data,
}
use remctl.Protocol.Message
use remctl.Channel.{Channel, token_send_priv, transmit}
use remctl.Server.Session.{Client, M, done, pure, send_token, bind_done, ◌>>=◌}
use remctl.Server.V2.Messages.{send_output, send_error, command_finish, status_octet, sent_or_fatal}
use remctl.Client.V2.Output.{
  Output, output, status, error, signed, read_string, read_output, read_error, read_status,
  read_result, output_of, error_of,
}

-- The client structure once a token has been sent.
abbrev pub told : Client → Bytes → Client
told c tok = record c { channel = record c.channel { sent = c.channel.sent ++ tok ∷ [] } }

send_token-small :
    (c : Client) (tok : Bytes)
    → c.channel.outcomes ≡ []
    → length tok ≤ token_max_data
    → send_token tok c ≡ done token_ok (told c tok)
unfolding send_token token_send_priv transmit
send_token-small c tok e small = rw (le→not_ltb token_max_data (length tok) small) (
    ap
      (λ outcomes.
        let (sent, ch) = transmit tok outcomes c.channel in done sent (record c { channel = ch }))
      e)

read_string-htonl :
    (string : Bytes)
    → length string < 4294967296
    → read_string (htonl (length string) ++ string) ≡ some string
unfolding read_string htonl
read_string-htonl string small = rw (ntohl-htonl (length string) string small) (ground arith)

four_more : (n k : ℕ) → k ≤ 4 → ltb (suc (suc (suc (suc n)))) k ≡ false
four_more n k h = le→not_ltb (suc (suc (suc (suc n)))) k (omega arith)

read_output-htonl :
    (stream : ℕ) (string : Bytes)
    → (stream ≡ 1) ⊎ (stream ≡ 2)
    → length string < 4294967296
    → read_result (2 ∷ Message.output ∷ stream ∷ (htonl (length string) ++ string))
      ≡ some (output stream string)
unfolding read_result read_output output_of htonl
read_output-htonl stream string (inl e) small =
    rw (four_more (length string) 4 (omega arith), e, read_string-htonl string small) refl
read_output-htonl stream string (inr e) small =
    rw (four_more (length string) 4 (omega arith), e, read_string-htonl string small) refl

eight_more : (n : ℕ) → ltb (suc (suc (suc (suc (suc (suc (suc (suc n)))))))) 8 ≡ false
eight_more n = le→not_ltb (suc (suc (suc (suc (suc (suc (suc (suc n)))))))) 8 (omega arith)

read_error-htonl :
    (code : ℕ) (message : Bytes)
    → code < 4294967296
    → length message < 4294967296
    → read_result (2 ∷ Message.error ∷ (htonl code ++ htonl (length message) ++ message))
      ≡ some (error code message)
unfolding read_result read_error error_of htonl
read_error-htonl code message fits small =
    rw
      (
        eight_more (length message),
        ntohl-htonl code (htonl (length message) ++ message) fits,
        read_string-htonl message small,
      )
      refl

small_stream : (stream : ℕ) → (stream ≡ 1) ⊎ (stream ≡ 2) → ltb 128 stream ≡ false
small_stream stream (inl e) = rw e refl
small_stream stream (inr e) = rw e refl

output_token :
    (stream : ℕ) (string : Bytes)
    → length (2 ∷ Message.output ∷ stream ∷ (htonl (length string) ++ string)) ≡ 7 + length string
unfolding htonl
output_token stream string = omega arith

error_token :
    (code : ℕ) (message : Bytes)
    → length (2 ∷ Message.error ∷ (htonl code ++ htonl (length message) ++ message))
      ≡ 10 + length message
unfolding htonl
error_token code message = omega arith

small_number : (code : ErrorCode) → error_number code < 4294967296
unfolding error_number
small_number internal = omega arith
small_number bad_token = omega arith
small_number unknown_message = omega arith
small_number bad_command = omega arith
small_number unknown_command = omega arith
small_number access = omega arith
small_number toomany_args = omega arith
small_number toomuch_data = omega arith
small_number unexpected_message = omega arith
small_number no_help = omega arith

-- Output of a command that fits one token is sent, over a channel that takes every token, as a token
-- that the client reads as the same output on the same stream.
pub send_output-read_result :
    (stream : ℕ) (string : Bytes) (c : Client)
    → (stream ≡ 1) ⊎ (stream ≡ 2)
    → 7 + length string ≤ token_max_data
    → c.channel.outcomes ≡ []
    → (tok : Bytes) × (send_output stream string c ≡ done true (told c tok))
      × (read_result tok ≡ some (output stream string))
unfolding send_output sent_or_fatal
send_output-read_result stream string c s small e =
    let tok : Bytes = 2 ∷ Message.output ∷ stream ∷ (htonl (length string) ++ string) in
    (
      tok,
      rw (small_stream stream s, lt→not_leb 4294967288 (length string) (omega arith))
          (bind_done (send_token tok) sent_or_fatal c
            (send_token-small c tok e (omega (arith, output_token stream string)))),
      read_output-htonl stream string s (omega arith),
    )

-- An error that fits one token is sent so that the client reads its number and its message.
pub send_error-read_result :
    (code : ErrorCode) (message : Bytes) (c : Client)
    → 10 + length message ≤ token_max_data
    → c.channel.outcomes ≡ []
    → (tok : Bytes) × (send_error code message c ≡ done true (told c tok))
      × (read_result tok ≡ some (error (error_number code) message))
unfolding send_error sent_or_fatal
send_error-read_result code message c small e =
    let tok : Bytes =
      2 ∷ Message.error ∷ (htonl (error_number code) ++ htonl (length message) ++ message) in
    (
      tok,
      rw (lt→not_leb 4294967285 (length message) (omega arith)) (
          bind_done (send_token tok) sent_or_fatal c
            (send_token-small c tok e (omega (arith, error_token (error_number code) message)))),
      read_error-htonl (error_number code) message (small_number code) (omega arith),
    )

signed_iff : (n : ℕ) → (some (status (signed n)) ≡ some (status (pos n))) ↔ (n < 128)
unfolding signed
signed_iff n = elim (Bool-cases (ltb n 128)) [
  | inl e ↦ (λ h. ltb→lt n 128 e, λ h. rw e refl)
  | inr e ↦ (λ h. absurd (cc (rw e at h)), λ h. absurd (cc (e, lt→ltb n 128 h)))
]

pub signed_small : (n : ℕ) → n < 128 → signed n ≡ pos n
unfolding signed
signed_small n h = rw (lt→ltb n 128 h) refl

-- An exit status up to 255 is sent, and the client reads its octet as a signed char.
pub command_finish-signed :
    (n : ℕ) (c : Client)
    → n ≤ 255
    → c.channel.outcomes ≡ []
    → (tok : Bytes) × (command_finish (pos n) c ≡ done true (told c tok))
      × (read_result tok ≡ some (status (signed n)))
unfolding command_finish sent_or_fatal status_octet read_result read_status
command_finish-signed n c small e =
    let tok : Bytes = 2 ∷ Message.status ∷ n ∷ [] in
    (
      tok,
      rw (le→not_ltb 255 n small)
          (bind_done (send_token tok) sent_or_fatal c (send_token-small c tok e (omega arith))),
      refl,
    )

-- An exit status up to 255 is sent, and the client reads the same status exactly if it is less than
-- 128.
pub command_finish-read_result :
    (n : ℕ) (c : Client)
    → n ≤ 255
    → c.channel.outcomes ≡ []
    → (tok : Bytes) × (command_finish (pos n) c ≡ done true (told c tok))
      × ((read_result tok ≡ some (status (pos n))) ↔ (n < 128))
command_finish-read_result n c small e =
    let (tok, sends, reads) = command_finish-signed n c small e in
    (tok, sends, rw reads (signed_iff n))
