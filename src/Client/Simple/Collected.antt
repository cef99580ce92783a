-- ===== src/Client/Simple/Collected.antt =====
-- What the simplified interface collects from the tokens of a server of protocol version two.
use remctl.Base.{
  ℕ, zero, suc, ◌<◌, ◌≡◌, ◌⊎◌, inl, inr, refl, sym, ap, ◌∙◌, Bool, true, false, not, ◌||◌, ◌==◌,
  Option, none, some, List, [], ◌∷◌, ◌++◌, append-nil, append_assoc, map, length, if◌then◌else◌,
  Bytes, arith,
}
use remctl.Base.Int.{ℤ}
use remctl.Channel.{Received, token}
use remctl.Client.V2.Output.{Output, output, status, read_result}
use remctl.Client.Session.{World, holds, Remctl}
use remctl.Channel.{token_recv_priv}
use remctl.Client.V2.Messages.{
  internal_v2_output, internal_v2_read_token, check_token, check_version, is_output, analyze,
  keep_result,
}
use remctl.Client.Api.{remctl_output, output_open, remctl_close}
use remctl.Client.Simple.{
  Result, append_stream, internal_output_append, after_append, handle_slot, collect,
}

-- A session of protocol version two that expects an answer, before `incoming`.
abbrev pub reading : Remctl → ℕ → List Received → Remctl
reading r fd incoming = record r {
  protocol = 2;
  fd = some fd;
  is_ready = true;
  world = record r.world { flags = []; channel = record r.world.channel { incoming = incoming } };
}

-- The session once `o` was read.
abbrev pub seen : Remctl → ℕ → Output → List Received → Remctl
seen r fd o incoming = record (reading r fd incoming) {
  error = none;
  output = some (holds o);
  is_ready = is_output o;
}

versioned :
    (b : Bool) (tok : Bytes) (x : Option Output) (r s : Remctl) {o : Output}
    → (if not b then none else x) ≡ some o
    → ◌≡◌ {A = Option Bytes × Remctl} (if not b then (none, s) else (some tok, r)) (some tok, r)
versioned true tok x r s e = refl
versioned false tok x r s e = absurd (cc e)

read_result-check_version :
    (tok : Bytes) (r : Remctl) {o : Output}
    → read_result tok ≡ some o
    → check_version tok r ≡ (some tok, r)
unfolding read_result check_version
read_result-check_version [] r e = absurd (cc e)
read_result-check_version (p0 ∷ []) r e = absurd (cc e)
read_result-check_version (p0 ∷ p1 ∷ rest) r e =
    versioned (p0 == 2 || p0 == 3) (p0 ∷ p1 ∷ rest) _ r _ e

-- A token that reads as a result is returned as this result.
pub remctl_output-read_result :
    (r : Remctl) (fd : ℕ) (tok : Bytes) (rest : List Received) {o : Output}
    → read_result tok ≡ some o
    → remctl_output (reading r fd (token tok ∷ rest)) ≡ (some (holds o), seen r fd o rest)
unfolding remctl_output output_open check_token analyze keep_result internal_v2_output
    internal_v2_read_token token_recv_priv
remctl_output-read_result r fd tok rest e = rw (read_result-check_version tok _ e, e) refl

-- Tokens that read as output of the command: a stream and a string for each.
pub data Outputs : List Bytes → List (ℕ × Bytes) → Type 0 where
  no_more : Outputs [] []
  next :
      {tokens : List Bytes} {items : List (ℕ × Bytes)} (tok : Bytes) (stream : ℕ) (string : Bytes)
      → (stream ≡ 1) ⊎ (stream ≡ 2)
      → read_result tok ≡ some (output stream string)
      → Outputs tokens items
      → Outputs (tok ∷ tokens) ((stream, string) ∷ items)

-- All that came on a stream.
unfoldable pub on_stream : ℕ → List (ℕ × Bytes) → Bytes
on_stream stream [] = []
on_stream stream ((s, string) ∷ items) =
    if s == stream then string ++ on_stream stream items else on_stream stream items

abbrev pub added : List (ℕ × Bytes) → Result → Result
added items result = record result {
  stdout = result.stdout ++ on_stream 1 items;
  stderr = result.stderr ++ on_stream 2 items;
}

added_nothing : (result : Result) → added [] result ≡ result
unfolding on_stream
added_nothing result = rw (append-nil result.stdout, append-nil result.stderr) refl

-- Adding the first item, and then the others.
added_first :
    (stream : ℕ) (string : Bytes) (items : List (ℕ × Bytes)) (result : Result)
    → (stream ≡ 1) ⊎ (stream ≡ 2)
    → (after : Result) × (internal_output_append result (holds (output stream string))
        ≡ (true, after))
      × (added items after ≡ added ((stream, string) ∷ items) result)
unfolding internal_output_append append_stream on_stream
added_first stream string items result (inl e) = (
  record result { stdout = result.stdout ++ string },
  rw e refl,
  rw (e, append_assoc result.stdout string (on_stream 1 items)) refl,
)
added_first stream string items result (inr e) = (
  record result { stderr = result.stderr ++ string },
  rw e refl,
  rw (e, append_assoc result.stderr string (on_stream 2 items)) refl,
)

collect_step :
    (fuel fd : ℕ) (r : Remctl) (tok : Bytes) (rest : List Received) (stream : ℕ) (string : Bytes)
    (result after : Result)
    → read_result tok ≡ some (output stream string)
    → internal_output_append result (holds (output stream string)) ≡ (true, after)
    → collect (suc fuel) (reading r fd (token tok ∷ rest)) result
      ≡ collect fuel (seen r fd (output stream string) rest) after
unfolding collect handle_slot after_append
collect_step fuel fd r tok rest stream string result after e appended =
    rw (remctl_output-read_result r fd tok rest e, appended) refl

collect_status :
    (fuel fd : ℕ) (r : Remctl) (tok : Bytes) (rest : List Received) (code : ℤ) (result : Result)
    → read_result tok ≡ some (status code)
    → collect (suc fuel) (reading r fd (token tok ∷ rest)) result
      ≡ some (record result { status = code }, remctl_close (seen r fd (status code) rest))
unfolding collect handle_slot
collect_status fuel fd r tok rest code result e =
    rw (remctl_output-read_result r fd tok rest e) refl

-- From tokens that read as output, and a last one that reads as an exit status, the loop collects
-- what came on each stream, in order, and the status.
pub collect-Outputs :
    (fuel fd : ℕ) (r : Remctl) (tokens : List Bytes) (items : List (ℕ × Bytes)) (last : Bytes)
    (code : ℤ) (rest : List Received) (result : Result)
    → Outputs tokens items
    → read_result last ≡ some (status code)
    → length tokens < fuel
    → (world : World) × (collect fuel (reading r fd (map token tokens ++ token last ∷ rest)) result
        ≡ some (record (added items result) { status = code }, world))
unfolding collect is_output
collect-Outputs zero fd r tokens items last code rest result outputs e h = absurd (omega arith)
collect-Outputs (suc fuel) fd r [] [] last code rest result no_more e h = (
  remctl_close (seen r fd (status code) rest),
  collect_status fuel fd r last rest code result e
      ∙ ap
          (λ (res : Result).
            some (record res { status = code }, remctl_close (seen r fd (status code) rest)))
          (sym (added_nothing result)),
)
collect-Outputs (suc fuel) fd r [] (item ∷ items) last code rest result outputs e h =
    elim outputs [ ]
collect-Outputs (suc fuel) fd r (tok ∷ tokens) [] last code rest result outputs e h =
    elim outputs [ ]
collect-Outputs (suc fuel) fd r (tok ∷ tokens) ((stream, string) ∷ items) last code rest result
      (next _ _ _ s read outputs) e h =
    let (after, appended, all) = added_first stream string items result s in
    let (world, collected) =
      collect-Outputs fuel fd (seen r fd (output stream string) []) tokens items last code rest
        after outputs e (omega arith) in
    (
      world,
      collect_step fuel fd r tok (map token tokens ++ token last ∷ rest) stream string result after
            read appended
          ∙ collected
          ∙ ap (λ (res : Result). some (record res { status = code }, world)) all,
    )
