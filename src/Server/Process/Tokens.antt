-- ===== src/Server/Process/Tokens.antt =====
-- A whole run of a process without errors, for a client of protocol version two or above: each piece
-- of output is sent in a token of its own.
use remctl.Base.{
  ℕ, ◌+◌, ◌<◌, ◌≡◌, ◌≤◌, ◌⊎◌, refl, sym, ap, ◌∙◌, true, some, List, [], ◌∷◌, ◌++◌, append_assoc,
  append-nil, length, All, Bytes,
}
use remctl.Protocol.{token_max_data}
use remctl.Server.Session.{v2, Client, done, bind_done, ◌>>=◌}
use remctl.Server.Commands.Process.{exited}
use remctl.Server.V2.Messages.{send_output}
use remctl.Client.V2.Output.{output, read_result}
use remctl.Client.Simple.Collected.{Outputs, no_more, next}
use remctl.Reply.{told, send_output-read_result}
use remctl.Server.Process.{
  Stream, readable, Running, Inputs, stream_number, handle_output, output_by, handle_readable,
  handle_event, server_process_run,
}
use remctl.Server.Process.Delivered.{Teller, ToldAll, IsQuiet, number_cases, pieces, reaped_status}
use remctl.Server.Process.Played.{IsStarted, all_events, server_process_run-ToldAll}

-- The client once `tokens` were sent.
abbrev pub told_all : Client → List Bytes → Client
told_all c tokens = record c { channel = record c.channel { sent = c.channel.sent ++ tokens } }

pub told_nothing : (c : Client) → told_all c [] ≡ c
told_nothing c =
    ap (λ sent. record c { channel = record c.channel { sent = sent } }) (append-nil c.channel.sent)

told-told_all :
    (c : Client) (tok : Bytes) (tokens : List Bytes)
    → told_all (told c tok) tokens ≡ told_all c (tok ∷ tokens)
told-told_all c tok tokens =
    ap (λ sent. record c { channel = record c.channel { sent = sent } })
      (append_assoc c.channel.sent (tok ∷ []) tokens)

readable_v2 :
    (stream : Stream) (bytes : Bytes) (p : Running) (c : Client)
    → c.callbacks ≡ v2
    → handle_event (readable stream bytes) p c ≡ handle_output stream bytes p c
unfolding handle_event handle_readable output_by ◌>>=◌
readable_v2 stream bytes p c e = ap (λ h. output_by h stream bytes p c) e

-- A piece of output is sent as one token that reads as it.
output_sent :
    (stream : Stream) (bytes : Bytes) (p : Running) (c : Client)
    → c.callbacks ≡ v2
    → c.channel.outcomes ≡ []
    → 7 + length bytes ≤ token_max_data
    → (tok : Bytes) × (handle_event (readable stream bytes) p c
        ≡ done (record p { saw_output = true }) (told c tok))
      × (read_result tok ≡ some (output (stream_number stream) bytes))
unfolding handle_output
output_sent stream bytes p c by_v2 reliable small =
    let (tok, sends, reads) =
      send_output-read_result (stream_number stream) bytes c (number_cases stream) small reliable in
    (
      tok,
      readable_v2 stream bytes p c by_v2
          ∙ bind_done (send_output (stream_number stream) bytes) _ c sends,
      reads,
    )

-- A client of protocol version two or above whose channel takes every token.
abbrev pub TakesTokens : Client → Type 0
TakesTokens c = (c.callbacks ≡ v2) × (c.channel.outcomes ≡ [])

abbrev ToldToken : Client → ℕ × Bytes → Client → Type 0
ToldToken c (stream, bytes) d =
    (tok : Bytes) × (d ≡ told c tok)
    × (read_result tok ≡ some (output stream bytes))
    × ((stream ≡ 1) ⊎ (stream ≡ 2))

abbrev token_teller : Teller
token_teller = record {
  Takes = TakesTokens;
  Told = ToldToken;
  tells = λ stream bytes p c takes small.
      let (tok, handled, reads) = output_sent stream bytes p c takes.0 takes.1 small in
      (told c tok, handled, (tok, refl, reads, number_cases stream), (takes.0, takes.1));
}

told_tokens :
    (c e : Client) (items : List (ℕ × Bytes))
    → ToldAll ToldToken c items e
    → (tokens : List Bytes) × (e ≡ told_all c tokens) × Outputs tokens items
told_tokens c e [] h = ([], sym h ∙ sym (told_nothing c), no_more)
told_tokens c e ((stream, bytes) ∷ items) (d, (tok, same, reads, numbered), more) =
    let (tokens, ends, outputs) = told_tokens d e items more in
    (
      tok ∷ tokens,
      ends ∙ ap (λ x. told_all x tokens) same ∙ told-told_all c tok tokens,
      next tok stream bytes numbered reads outputs,
    )

-- A run of a process without errors succeeds, with the status that was reaped last, and every piece
-- of the output was sent in a token of its own.
pub server_process_run-Outputs :
    (inputs : Inputs) (pid stdinout_fd stderr_fd : ℕ) (c : Client)
    → IsStarted inputs.started pid stdinout_fd stderr_fd
    → 1 < c.protocol
    → c.callbacks ≡ v2
    → c.channel.outcomes ≡ []
    → All IsQuiet inputs.events
    → All (λ events. All IsQuiet events) inputs.rounds
    → (tokens : List Bytes) × (p : Running) × (server_process_run inputs c
        ≡ done (true, p) (told_all c tokens))
      × Outputs tokens (pieces (all_events inputs))
      × (p.status ≡ reaped_status (exited 0) (all_events inputs))
server_process_run-Outputs inputs pid stdinout_fd stderr_fd c started new by_v2 reliable now quiet =
    let (end, p, ran, told, takes, reaped) =
      server_process_run-ToldAll token_teller inputs pid stdinout_fd stderr_fd c started new
        (by_v2, reliable) now quiet in
    let (tokens, ends, outputs) = told_tokens c end (pieces (all_events inputs)) told in
    (tokens, p, ran ∙ ap (done (true, p)) ends, outputs, reaped)
