-- ===== src/Reply/V1.antt =====
-- What the server answers in protocol version one, as the client reads it.
use remctl.Base.{
  ==_refl, suc, ℕ, ◌-◌, ◌+◌, ◌^◌, ◌≡◌, ◌≤◌, ◌<◌, refl, ap, ◌∙◌, true, false, none, some, List, [],
  ◌∷◌, ◌++◌, length, drop, lt→ltb, le→not_ltb, lt→not_leb, ntohl, ntohl-htonl, htonl, Bytes, arith,
}
use remctl.Base.Int.{ℤ, pos, negsuc, to_uint32}
use remctl.Protocol.{token_max_data}
use remctl.Channel.{Received, token, token_recv_priv}
use remctl.Server.Session.{Client, done, send_token, bind_done}
use remctl.Server.V1
use remctl.Client.V2.Output.{output}
use remctl.Client.Session.{Remctl, recv_priv, holds, close_connection, socket_close}
use remctl.Client.V1.{
  signed_int, keep_output, read_result, check_token, read_answer, later_output, internal_v1_output,
}
use remctl.Client.Api.{remctl_output, output_open}
use remctl.Reply.{told, send_token-small}

-- A status that an `int` of 32 bits holds.
unfoldable pub FitsInt : ℤ → Type 0
FitsInt (pos n) = n < 2 ^ 31
FitsInt (negsuc n) = n < 2 ^ 31

signed_high : (m : ℕ) → 2 ^ 31 ≤ m → signed_int m ≡ negsuc (2 ^ 32 - 1 - m)
unfolding signed_int
signed_high m h = rw (le→not_ltb m (2 ^ 31) h) refl

signed_int-to_uint32 : (code : ℤ) → FitsInt code → signed_int (to_uint32 code) ≡ code
unfolding signed_int FitsInt
signed_int-to_uint32 (pos n) h = rw (lt→ltb n (2 ^ 31) h) refl
signed_int-to_uint32 (negsuc n) h =
    signed_high (2 ^ 32 - suc n) (omega arith) ∙ ap negsuc (omega arith)

small_uint32 : (code : ℤ) → FitsInt code → to_uint32 code < 2 ^ 32
unfolding FitsInt
small_uint32 (pos n) h = omega arith
small_uint32 (negsuc n) h = omega arith

-- The token of an output and an exit status.
abbrev pub answer_token : Bytes → ℤ → Bytes
answer_token string code = htonl (to_uint32 code) ++ htonl (length string) ++ string

length-answer_token :
    (string : Bytes) (code : ℤ) → length (answer_token string code) ≡ 8 + length string
unfolding htonl
length-answer_token string code = omega arith

-- A session of protocol version one that waits for `incoming`.
abbrev pub waiting : Remctl → ℕ → List Received → Remctl
waiting r fd incoming = record r {
  protocol = 1;
  fd = some fd;
  output = none;
  world = record r.world { flags = []; channel = record r.world.channel { incoming = incoming } };
}

drop-answer_token : (string : Bytes) (code : ℤ) → drop 8 (answer_token string code) ≡ string
unfolding htonl
drop-answer_token string code = refl

ntohl-answer_token :
    (string : Bytes) (code : ℤ)
    → length string < 2 ^ 32
    → ntohl (drop 4 (answer_token string code)) ≡ length string
unfolding htonl
ntohl-answer_token string code h = ntohl-htonl (length string) string h

status-answer_token :
    (string : Bytes) (code : ℤ) → FitsInt code → ntohl (answer_token string code) ≡ to_uint32 code
unfolding htonl
status-answer_token string code fits =
    ntohl-htonl (to_uint32 code) (htonl (length string) ++ string) (small_uint32 code fits)

eight_less : (n : ℕ) → 8 + n - 8 ≡ n
eight_less n = omega arith

read_result-answer_token :
    (string : Bytes) (code : ℤ) (d : Remctl)
    → FitsInt code
    → length string < 2 ^ 32
    → read_result (answer_token string code) d ≡ keep_output string (record d { status = code })
unfolding read_result
read_result-answer_token string code d fits small =
    rw
      (
        length-answer_token string code,
        ntohl-answer_token string code small,
        drop-answer_token string code,
        status-answer_token string code fits,
        signed_int-to_uint32 code fits,
        le→not_ltb (8 + length string) 8 (omega arith),
        eight_less (length string),
        ==_refl (length string),
      )
      refl

-- The session once the answer was read.
abbrev pub over : Remctl → ℕ → List Received → Bytes → ℤ → Remctl
over r fd rest string code =
    record (close_connection (record (waiting r fd rest) { error = none; status = code })) {
      output = some (holds (output 1 string));
      is_ready = false;
    }

pub read_answer-token :
    (r : Remctl) (fd : ℕ) (rest : List Received) (string : Bytes) (code : ℤ)
    → FitsInt code
    → length string < 2 ^ 32
    → remctl_output (waiting r fd (token (answer_token string code) ∷ rest))
      ≡ (some (holds (output 1 string)), over r fd rest string code)
unfolding remctl_output output_open internal_v1_output later_output read_answer check_token
    token_recv_priv keep_output recv_priv socket_close
read_answer-token r fd rest string code fits small =
    rw (read_result-answer_token string code _ fits small) refl

sent_answer :
    (string : Bytes) (code : ℤ) (c : Client)
    → 8 + length string ≤ token_max_data
    → c.channel.outcomes ≡ []
    → V1.send_output string code c ≡ done true (told c (answer_token string code))
unfolding V1.send_output
sent_answer string code c small e = rw (lt→not_leb 4294967287 (length string) (omega arith)) (
    bind_done (send_token (answer_token string code)) _ c (
      send_token-small c (answer_token string code) e
        (omega (arith, length-answer_token string code))))

-- In protocol version one, the output and the exit status (any `int`) of a command whose output fits
-- one token are sent, over a channel that takes every token, as one token, from which the client
-- returns the same output and keeps the same status.
pub v1_output_delivered :
    (string : Bytes) (code : ℤ) (c : Client) (r : Remctl) (fd : ℕ) (rest : List Received)
    → FitsInt code
    → 8 + length string ≤ token_max_data
    → c.channel.outcomes ≡ []
    → (tok : Bytes) × (V1.send_output string code c ≡ done true (told c tok))
      × (remctl_output (waiting r fd (token tok ∷ rest))
          ≡ (some (holds (output 1 string)), over r fd rest string code))
v1_output_delivered string code c r fd rest fits small e = (
  answer_token string code,
  sent_answer string code c small e,
  read_answer-token r fd rest string code fits (omega arith),
)
