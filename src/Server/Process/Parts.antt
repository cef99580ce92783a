-- ===== src/Server/Process/Parts.antt =====
-- The parts of a run of a process: what each leaves, and that one part behind another is a part.
use mathlib.Core.Path.{subst}
use remctl.Base.{ℕ, ◌≡◌, refl, sym, ap, ◌∙◌, Bool, false, none, some, List, [], ◌∷◌, ◌++◌, Bytes}
use remctl.Server.Session.{Client, M, done, bind_done, ◌>>=◌}
use remctl.Server.Commands.Process.{WaitStatus}
use remctl.Server.Process.{
  stream_number, Event, readable, input_sent, io_event, child_signal, Running,
}
use remctl.Server.Process.Delivered.{Teller, ToldAll, pieces, reaped_status, Played}

-- What a part of the run leaves.
pub record Ran (teller : Teller) (status : WaitStatus) (events : List Event) (c : Client)
    (m : M Running) : Type 0 where
  pub end : Client
  pub after : Running
  pub runs : m c ≡ done after end
  pub told : ToldAll teller.Told c (pieces events) end
  pub takes : teller.Takes end
  pub unbroken : after.got_break ≡ false
  pub keeps_status : after.status ≡ reaped_status status events

ToldAll-append :
    (Told : Client → ℕ × Bytes → Client → Type 0) (c d e : Client) (xs ys : List (ℕ × Bytes))
    → ToldAll Told c xs d
    → ToldAll Told d ys e
    → ToldAll Told c (xs ++ ys) e
ToldAll-append Told c d e [] ys h rest = subst (λ x. ToldAll Told x ys e) (sym h) rest
ToldAll-append Told c d e (x ∷ xs) ys (c', one, more) rest =
    (c', one, ToldAll-append Told c' d e xs ys more rest)

pieces-append : (xs ys : List Event) → pieces (xs ++ ys) ≡ pieces xs ++ pieces ys
unfolding pieces stream_number
pieces-append [] ys = refl
pieces-append (readable stream bytes ∷ xs) ys =
    ap (λ l. (stream_number stream, bytes) ∷ l) (pieces-append xs ys)
pieces-append (input_sent succeeds ∷ xs) ys = pieces-append xs ys
pieces-append (io_event stream flags ∷ xs) ys = pieces-append xs ys
pieces-append (child_signal status ∷ xs) ys = pieces-append xs ys

reaped_status-append :
    (status : WaitStatus) (xs ys : List Event)
    → reaped_status status (xs ++ ys) ≡ reaped_status (reaped_status status xs) ys
unfolding reaped_status
reaped_status-append status [] ys = refl
reaped_status-append status (child_signal (some status') ∷ xs) ys =
    reaped_status-append status' xs ys
reaped_status-append status (child_signal none ∷ xs) ys = reaped_status-append status xs ys
reaped_status-append status (readable stream bytes ∷ xs) ys = reaped_status-append status xs ys
reaped_status-append status (input_sent succeeds ∷ xs) ys = reaped_status-append status xs ys
reaped_status-append status (io_event stream flags ∷ xs) ys = reaped_status-append status xs ys

-- A part of the run, and what follows it.
pub ran_bind :
    (teller : Teller) (status : WaitStatus) (xs ys : List Event) (c : Client) (m : M Running)
    (f : Running → M Running) (first : Ran teller status xs c m)
    → Ran teller first.after.status ys first.end (f first.after)
    → Ran teller status (xs ++ ys) c (m >>= f)
ran_bind teller status xs ys c m f first rest = record {
  end = rest.end;
  after = rest.after;
  runs = bind_done m f c first.runs ∙ rest.runs;
  told =
      subst (λ items. ToldAll teller.Told c items rest.end) (sym (pieces-append xs ys))
        (ToldAll-append teller.Told c first.end rest.end (pieces xs) (pieces ys) first.told
          rest.told);
  takes = rest.takes;
  unbroken = rest.unbroken;
  keeps_status =
      rest.keeps_status
      ∙ ap (λ s. reaped_status s ys) first.keeps_status
      ∙ sym (reaped_status-append status xs ys);
}

-- Nothing is played.
pub ran_nothing :
    (teller : Teller) (p p' : Running) (c : Client) (m : M Running)
    → teller.Takes c
    → m c ≡ done p' c
    → p'.got_break ≡ false
    → p'.status ≡ p.status
    → Ran teller p.status [] c m
unfolding pieces reaped_status
ran_nothing teller p p' c m takes runs unbroken same = record {
  end = c;
  after = p';
  runs = runs;
  told = refl;
  takes = takes;
  unbroken = unbroken;
  keeps_status = same;
}

abbrev pub ran_of_played :
    (teller : Teller) (status : WaitStatus) (seen : Bool) (events : List Event) (c : Client)
    (m : M Running)
    → Played teller status seen events c m
    → Ran teller status events c m
ran_of_played teller status seen events c m played = record {
  end = played.end;
  after = played.after;
  runs = played.runs;
  told = played.told;
  takes = played.takes;
  unbroken = played.unbroken;
  keeps_status = played.keeps_status;
}
