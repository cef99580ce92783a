-- ===== src/Server/Process/Delivered.antt =====
-- The output and the exit status of a process, however the client's callbacks pass the output on.
use mathlib.Core.Path.{subst}
use remctl.Base.{
  ℕ, ◌+◌, ◌≡◌, ◌≤◌, ◌⊎◌, inl, inr, refl, sym, ap, ◌∙◌, Bool, true, false, ◌&&◌, ◌||◌, none, some,
  List, [], ◌∷◌, length, All, Bytes,
}
use remctl.Protocol.{token_max_data}
use remctl.Server.Session.{Client, M, done, bind_done, ◌>>=◌}
use remctl.Server.Commands.Process.{WaitStatus}
use remctl.Reply.{told}
use remctl.Server.Process.{
  Stream, inout, err, IoEvent, Event, readable, input_sent, io_event, child_signal, Running,
  stream_number, server_handle_input_end, server_handle_io_event, handle_exit, handle_event,
  dispatch,
}

-- Events of a run without errors: output in pieces that fit one token, and the end of the input, end
-- of file, a client that has gone away, and signals.
unfoldable pub IsQuiet : Event → Type 0
IsQuiet (readable stream bytes) = 7 + length bytes ≤ token_max_data
IsQuiet (input_sent succeeds) = succeeds ≡ true
IsQuiet (io_event stream events) = (events.is_eof || events.is_error && events.client_gone) ≡ true
IsQuiet (child_signal status) = Unit

pub number_cases : (stream : Stream) → (stream_number stream ≡ 1) ⊎ (stream_number stream ≡ 2)
unfolding stream_number
number_cases inout = inl refl
number_cases err = inr refl

-- The pieces of output, with their streams.
unfoldable pub pieces : List Event → List (ℕ × Bytes)
unfolding stream_number
pieces [] = []
pieces (readable stream bytes ∷ events) = (stream_number stream, bytes) ∷ pieces events
pieces (input_sent succeeds ∷ events) = pieces events
pieces (io_event stream flags ∷ events) = pieces events
pieces (child_signal status ∷ events) = pieces events

unfoldable pub has_output : List Event → Bool
has_output [] = false
has_output (readable stream bytes ∷ events) = true
has_output (input_sent succeeds ∷ events) = has_output events
has_output (io_event stream flags ∷ events) = has_output events
has_output (child_signal status ∷ events) = has_output events

-- The status of the child that was reaped last, from the one before.
unfoldable pub reaped_status : WaitStatus → List Event → WaitStatus
reaped_status status [] = status
reaped_status status (child_signal (some status') ∷ events) = reaped_status status' events
reaped_status status (child_signal none ∷ events) = reaped_status status events
reaped_status status (readable stream bytes ∷ events) = reaped_status status events
reaped_status status (input_sent succeeds ∷ events) = reaped_status status events
reaped_status status (io_event stream flags ∷ events) = reaped_status status events

-- How the client's callbacks pass on output: `Takes` holds of a client that takes all that is sent,
-- and `Told` of one piece of output, with its stream, between the client before and after it.
pub record Teller : Type 1 where
  pub Takes : Client → Type 0
  pub Told : Client → ℕ × Bytes → Client → Type 0
  pub tells :
      (stream : Stream) (bytes : Bytes) (p : Running) (c : Client)
      → Takes c
      → 7 + length bytes ≤ token_max_data
      → (d : Client) × (handle_event (readable stream bytes) p c
          ≡ done (record p { saw_output = true }) d)
        × Told c (stream_number stream, bytes) d
        × Takes d

-- Pieces of output, one after the other.
abbrev pub ToldAll :
    (Client → ℕ × Bytes → Client → Type 0) → Client → List (ℕ × Bytes) → Client → Type 0
ToldAll Told c [] e = c ≡ e
ToldAll Told c (piece ∷ items) e = (d : Client) × Told c piece d × ToldAll Told d items e

-- What a list of events leaves.
pub record Played (teller : Teller) (status : WaitStatus) (seen : Bool) (events : List Event)
    (c : Client) (m : M Running) : Type 0 where
  pub end : Client
  pub after : Running
  pub runs : m c ≡ done after end
  pub told : ToldAll teller.Told c (pieces events) end
  pub takes : teller.Takes end
  pub unbroken : after.got_break ≡ false
  pub keeps_status : after.status ≡ reaped_status status events
  pub sees : after.saw_output ≡ (seen || has_output events)

dispatch-next :
    (event : Event) (events : List Event) (p : Running)
    → p.got_break ≡ false
    → dispatch (event ∷ events) p ≡ (handle_event event p >>= dispatch events)
unfolding dispatch
dispatch-next event events p e = rw e refl

-- An event that sends nothing, before others.
silent-Played :
    (teller : Teller) (event : Event) (events : List Event) (p p' : Running) (c : Client)
    → p.got_break ≡ false
    → handle_event event p c ≡ done p' c
    → pieces (event ∷ events) ≡ pieces events
    → reaped_status p'.status events ≡ reaped_status p.status (event ∷ events)
    → (p'.saw_output || has_output events) ≡ (p.saw_output || has_output (event ∷ events))
    → Played teller p'.status p'.saw_output events c (dispatch events p')
    → Played teller p.status p.saw_output (event ∷ events) c (dispatch (event ∷ events) p)
silent-Played teller event events p p' c unbroken handled same_pieces same_status same_seen rest =
    record {
      end = rest.end;
      after = rest.after;
      runs =
          ap (λ (m : M Running). m c) (dispatch-next event events p unbroken)
          ∙ bind_done (handle_event event p) (dispatch events) c handled
          ∙ rest.runs;
      told = subst (λ items. ToldAll teller.Told c items rest.end) (sym same_pieces) rest.told;
      takes = rest.takes;
      unbroken = rest.unbroken;
      keeps_status = rest.keeps_status ∙ same_status;
      sees = rest.sees ∙ same_seen;
    }

-- An error event that ends nothing.
io_quiet :
    (stream : Stream) (is_eof is_gone : Bool) (flags : IoEvent) (p : Running) (c : Client)
    → flags.is_eof ≡ is_eof
    → (flags.is_error && flags.client_gone) ≡ is_gone
    → (is_eof || is_gone) ≡ true
    → (p' : Running) × (server_handle_io_event stream flags p c ≡ done p' c)
      × (p'.got_break ≡ p.got_break)
      × (p'.status ≡ p.status)
      × (p'.saw_output ≡ p.saw_output)
unfolding server_handle_io_event
io_quiet stream true is_gone flags p c e1 e2 h =
    (record p { stopped_reading = stream ∷ p.stopped_reading }, rw e1 refl, refl, refl, refl)
io_quiet stream false true flags p c e1 e2 h =
    (record p { stopped_writing = stream ∷ p.stopped_writing }, rw (e1, e2) refl, refl, refl, refl)
io_quiet stream false false flags p c e1 e2 h = absurd (cc h)

or_true : (b : Bool) (b' : Bool) → (true || b) ≡ (b' || true)
or_true b true = refl
or_true b false = refl

or_false : (b : Bool) → b ≡ (b || false)
or_false true = refl
or_false false = refl

-- Quiet events pass on every piece of output, in order, and leave the loop unbroken.
pub dispatch-Played :
    (teller : Teller) (events : List Event) (p : Running) (c : Client)
    → teller.Takes c
    → p.got_break ≡ false
    → All IsQuiet events
    → Played teller p.status p.saw_output events c (dispatch events p)
unfolding IsQuiet pieces has_output reaped_status dispatch
dispatch-Played teller [] p c takes unbroken quiet = record {
  end = c;
  after = p;
  runs = refl;
  told = refl;
  takes = takes;
  unbroken = unbroken;
  keeps_status = refl;
  sees = or_false p.saw_output;
}
dispatch-Played teller (readable stream bytes ∷ events) p c takes unbroken (small, quiet) =
    let (d, handled, told, takes') = teller.tells stream bytes p c takes small in
    let rest =
      dispatch-Played teller events (record p { saw_output = true }) d takes' unbroken quiet in
    record {
      end = rest.end;
      after = rest.after;
      runs =
          ap (λ (m : M Running). m c) (dispatch-next (readable stream bytes) events p unbroken)
          ∙ bind_done (handle_event (readable stream bytes) p) (dispatch events) c handled
          ∙ rest.runs;
      told = (d, told, rest.told);
      takes = rest.takes;
      unbroken = rest.unbroken;
      keeps_status = rest.keeps_status;
      sees = rest.sees ∙ or_true (has_output events) p.saw_output;
    }
dispatch-Played teller (input_sent succeeds ∷ events) p c takes unbroken (h, quiet) =
    let p' : Running = record p { stopped_writing = inout ∷ p.stopped_writing; shut = true } in
    silent-Played teller (input_sent succeeds) events p p' c unbroken
      (unfold handle_event server_handle_input_end in rw h refl) refl refl refl
      (dispatch-Played teller events p' c takes unbroken quiet)
dispatch-Played teller (child_signal none ∷ events) p c takes unbroken (h, quiet) =
    silent-Played teller (child_signal none) events p p c unbroken
      (unfold handle_event handle_exit in refl) refl refl refl
      (dispatch-Played teller events p c takes unbroken quiet)
dispatch-Played teller (child_signal (some status) ∷ events) p c takes unbroken (h, quiet) =
    let p' : Running = record p { status = status; reaped = true; loop_exit = true } in
    silent-Played teller (child_signal (some status)) events p p' c unbroken
      (unfold handle_event handle_exit in refl) refl refl refl
      (dispatch-Played teller events p' c takes unbroken quiet)
dispatch-Played teller (io_event stream flags ∷ events) p c takes unbroken (h, quiet) =
    let (p', handled, same_break, same_status, same_seen) =
      io_quiet stream flags.is_eof (flags.is_error && flags.client_gone) flags p c refl refl h in
    silent-Played teller (io_event stream flags) events p p' c unbroken
      (unfold handle_event in handled) refl (ap (λ s. reaped_status s events) same_status)
      (ap (λ b. b || has_output events) same_seen)
      (dispatch-Played teller events p' c takes (same_break ∙ unbroken) quiet)
