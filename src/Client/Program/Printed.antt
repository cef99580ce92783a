-- ===== src/Client/Program/Printed.antt =====
-- What the program remctl prints of the answers of a server of protocol version two.
use remctl.Base.{
  ℕ, zero, suc, ◌<◌, ◌≡◌, ◌⊎◌, inl, inr, refl, sym, ap, ◌∙◌, some, List, [], ◌∷◌, ◌++◌, append-nil,
  append_assoc, map, length, length-append, length-map, Bytes, arith,
}
use remctl.Base.Int.{ℤ}
use remctl.Channel.{Received, token}
use remctl.Client.V2.Output.{output, status, read_result}
use remctl.Client.Session.{Remctl}
use remctl.Client.V2.Messages.{is_output}
use remctl.Client.Simple.Collected.{
  reading, seen, remctl_output-read_result, Outputs, no_more, next, on_stream,
}
use remctl.Client.Program.{
  exits, Console, print_output, handle_response, responses, no_output, process_response,
}

-- What is on the console once the items are printed.
abbrev pub shown : List (ℕ × Bytes) → Console → Console
shown items console = record {
  stdout = console.stdout ++ on_stream 1 items;
  stderr = console.stderr ++ on_stream 2 items;
}

shown_nothing : (console : Console) → shown [] console ≡ console
unfolding on_stream
shown_nothing console = rw (append-nil console.stdout, append-nil console.stderr) refl

shown_first :
    (stream : ℕ) (string : Bytes) (items : List (ℕ × Bytes)) (console : Console)
    → (stream ≡ 1) ⊎ (stream ≡ 2)
    → shown items (print_output console stream string) ≡ shown ((stream, string) ∷ items) console
unfolding print_output on_stream
shown_first stream string items console (inl e) =
    rw (e, append_assoc console.stdout string (on_stream 1 items)) refl
shown_first stream string items console (inr e) =
    rw (e, append_assoc console.stderr string (on_stream 2 items)) refl

responses_step :
    (fuel fd : ℕ) (r : Remctl) (tok : Bytes) (rest : List Received) (stream : ℕ) (string : Bytes)
    (console : Console)
    → read_result tok ≡ some (output stream string)
    → responses (suc fuel) (reading r fd (token tok ∷ rest)) console
      ≡ responses fuel (seen r fd (output stream string) rest) (print_output console stream string)
unfolding responses handle_response
responses_step fuel fd r tok rest stream string console e =
    rw (remctl_output-read_result r fd tok rest e) refl

responses_status :
    (fuel fd : ℕ) (r : Remctl) (tok : Bytes) (rest : List Received) (code : ℤ) (console : Console)
    → read_result tok ≡ some (status code)
    → responses (suc fuel) (reading r fd (token tok ∷ rest)) console
      ≡ some (record {
        ending = exits code;
        console = console;
        session = seen r fd (status code) rest;
      })
unfolding responses handle_response
responses_status fuel fd r tok rest code console e =
    rw (remctl_output-read_result r fd tok rest e) refl

-- The loop prints what reads as output, in order, and ends with the exit status behind it.
pub responses-Outputs :
    (fuel fd : ℕ) (r : Remctl) (tokens : List Bytes) (items : List (ℕ × Bytes)) (last : Bytes)
    (code : ℤ) (rest : List Received) (console : Console)
    → Outputs tokens items
    → read_result last ≡ some (status code)
    → length tokens < fuel
    → (session : Remctl) × (responses fuel
          (reading r fd (map token tokens ++ token last ∷ rest))
          console
        ≡ some (record { ending = exits code; console = shown items console; session = session }))
unfolding responses is_output
responses-Outputs zero fd r tokens items last code rest console outputs e h = absurd (omega arith)
responses-Outputs (suc fuel) fd r [] [] last code rest console no_more e h = (
  seen r fd (status code) rest,
  responses_status fuel fd r last rest code console e
      ∙ ap
          (λ (c : Console).
            some
              (record { ending = exits code; console = c; session = seen r fd (status code) rest }))
          (sym (shown_nothing console)),
)
responses-Outputs (suc fuel) fd r [] (item ∷ items) last code rest console outputs e h =
    elim outputs [ ]
responses-Outputs (suc fuel) fd r (tok ∷ tokens) [] last code rest console outputs e h =
    elim outputs [ ]
responses-Outputs (suc fuel) fd r (tok ∷ tokens) ((stream, string) ∷ items) last code rest console
      (next _ _ _ s read outputs) e h =
    let (session, printed) =
      responses-Outputs fuel fd (seen r fd (output stream string) []) tokens items last code rest
        (print_output console stream string) outputs e (omega arith) in
    (
      session,
      responses_step fuel fd r tok (map token tokens ++ token last ∷ rest) stream string console
            read
          ∙ printed
          ∙ ap
              (λ (c : Console).
                some (record { ending = exits code; console = c; session = session }))
              (shown_first stream string items console s),
    )

-- All of it, from a session that has sent a command.
pub process_response-Outputs :
    (fd : ℕ) (r : Remctl) (tokens : List Bytes) (items : List (ℕ × Bytes)) (last : Bytes) (code : ℤ)
    (rest : List Received)
    → Outputs tokens items
    → read_result last ≡ some (status code)
    → (session : Remctl) × (process_response (reading r fd (map token tokens ++ token last ∷ rest))
        ≡ some (record { ending = exits code; console = shown items no_output; session = session }))
unfolding process_response
process_response-Outputs fd r tokens items last code rest outputs e =
    responses-Outputs (suc (length (map token tokens ++ token last ∷ rest))) fd r tokens items last
      code rest no_output outputs e
      (omega (arith, length-append (map token tokens) (token last ∷ rest), length-map token tokens))
