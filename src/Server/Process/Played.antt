-- ===== src/Server/Process/Played.antt =====
-- A whole run of a process without errors, from protocol version two on.
use mathlib.Core.Path.{subst}
use remctl.Base.{
  ℕ, ◌≡◌, ◌<◌, refl, sym, ap, ◌∙◌, Bool, true, false, Bool-cases, inl, inr, ◌==◌, lt→ltb, Option,
  none, some, List, [], ◌∷◌, ◌++◌, All, if◌then◌else◌, Bytes, arith,
}
use remctl.Base.Int.{pos}
use remctl.Server.Session.{Client, done, client, bind_done, ◌>>=◌}
use remctl.Server.Commands.Process.{WaitStatus, exited}
use remctl.Server.Process.{
  Event, Started, Running, Inputs, cleared, start, start_stderr, start_fork, dispatch, drain,
  run_loop, close_down, take_output, finish_run, server_process_run,
}
use remctl.Server.Process.Delivered.{
  Teller, ToldAll, IsQuiet, pieces, has_output, reaped_status, dispatch-Played,
}
use remctl.Server.Process.Parts.{Ran, ran_bind, ran_nothing, ran_of_played}

-- The events of the later runs of the loop that are played: those behind a run without output are
-- not.
unfoldable pub later : List (List Event) → List Event
later [] = []
later (events ∷ rounds) = events ++ (if has_output events then later rounds else [])

drain_stops :
    (rounds : List (List Event)) (p : Running) (c : Client)
    → p.saw_output ≡ false
    → drain rounds p c ≡ done p c
unfolding drain
drain_stops [] p c e = rw e refl
drain_stops (events ∷ rounds) p c e = rw e refl

drain-next :
    (events : List Event) (rounds : List (List Event)) (p : Running)
    → p.saw_output ≡ true
    → p.got_break ≡ false
    → drain (events ∷ rounds) p
      ≡ (dispatch events (record p { saw_output = false }) >>= drain rounds)
unfolding drain
drain-next events rounds p e1 e2 = rw (e1, e2) refl

drain-nil :
    (p : Running) (c : Client)
    → p.saw_output ≡ true
    → p.got_break ≡ false
    → drain [] p c ≡ done (record p { saw_output = false }) c
unfolding drain
drain-nil p c e1 e2 = rw (e1, e2) refl

drain_ran :
    (teller : Teller) (rounds : List (List Event)) (p : Running) (c : Client)
    → teller.Takes c
    → p.saw_output ≡ true
    → p.got_break ≡ false
    → All (λ events. All IsQuiet events) rounds
    → Ran teller p.status (later rounds) c (drain rounds p)
unfolding later
drain_ran teller [] p c takes sees unbroken quiet =
    ran_nothing teller p (record p { saw_output = false }) c (drain [] p) takes
      (drain-nil p c sees unbroken) unbroken refl
drain_ran teller (events ∷ rounds) p c takes sees unbroken (now, quiet) =
    let played =
      dispatch-Played teller events (record p { saw_output = false }) c takes unbroken now in
    let first =
      ran_of_played teller p.status false events c
        (dispatch events (record p { saw_output = false })) played in
    subst (λ m. Ran teller p.status (later (events ∷ rounds)) c m)
      (sym (drain-next events rounds p sees unbroken))
      (ran_bind teller p.status events (if has_output events then later rounds else []) c
        (dispatch events (record p { saw_output = false })) (drain rounds) first
        (elim (Bool-cases (has_output events)) [
          | inl e ↦ rw e (
              drain_ran teller rounds played.after played.end played.takes (played.sees ∙ e)
                played.unbroken quiet)
          | inr e ↦ rw e (
              ran_nothing teller played.after played.after played.end (drain rounds played.after)
                played.takes (drain_stops rounds played.after played.end (played.sees ∙ e))
                played.unbroken refl)
        ]))

-- The calls of `start` succeed.
pub record IsStarted (started : Started) (pid stdinout_fd stderr_fd : ℕ) : Type 0 where
  pub has_stdinout : started.stdinout_pair ≡ some stdinout_fd
  pub has_stderr : started.stderr_pair ≡ some stderr_fd
  pub has_fork : started.fork ≡ some pid

-- The structure once the process runs.
abbrev running : ℕ → ℕ → ℕ → Running
running pid stdinout_fd stderr_fd = record cleared {
  pid = pos pid;
  stdinout_fd = stdinout_fd;
  stderr_fd = stderr_fd;
}

start-running :
    (started : Started) (pid stdinout_fd stderr_fd : ℕ) (c : Client)
    → IsStarted started pid stdinout_fd stderr_fd
    → 1 < c.protocol
    → start started cleared c ≡ done (running pid stdinout_fd stderr_fd) c
unfolding start start_stderr start_fork ◌>>=◌
start-running started pid stdinout_fd stderr_fd c s new =
    rw (s.has_stdinout, lt→ltb 1 c.protocol new, s.has_stderr, s.has_fork) refl

-- All the events of a run.
abbrev pub all_events : Inputs → List Event
all_events inputs = inputs.events ++ later inputs.rounds

pub not_one : (n : ℕ) → 1 < n → (n == 1) ≡ false
not_one n h = ground arith

run_loop_ran :
    (teller : Teller) (inputs : Inputs) (pid stdinout_fd stderr_fd : ℕ) (c : Client)
    → IsStarted inputs.started pid stdinout_fd stderr_fd
    → 1 < c.protocol
    → teller.Takes c
    → All IsQuiet inputs.events
    → All (λ events. All IsQuiet events) inputs.rounds
    → Ran teller (exited 0) (all_events inputs) c (run_loop inputs)
unfolding run_loop
run_loop_ran teller inputs pid stdinout_fd stderr_fd c started new takes now quiet =
    let p0 = running pid stdinout_fd stderr_fd in
    let first =
      ran_of_played teller (exited 0) false inputs.events c (dispatch inputs.events p0)
        (dispatch-Played teller inputs.events p0 c takes refl now) in
    let rest =
      ran_bind teller (exited 0) inputs.events (later inputs.rounds) c (dispatch inputs.events p0)
        (λ p. drain inputs.rounds (record p { saw_output = true })) first
        (drain_ran teller inputs.rounds (record first.after { saw_output = true }) first.end
          first.takes refl first.unbroken quiet) in
    record {
      end = rest.end;
      after = rest.after;
      runs =
          bind_done (start inputs.started cleared) _ c
            (start-running inputs.started pid stdinout_fd stderr_fd c started new)
          ∙ rest.runs;
      told = rest.told;
      takes = rest.takes;
      unbroken = rest.unbroken;
      keeps_status = rest.keeps_status;
    }

take_output_status :
    (output : Option Bytes) (protocol : ℕ) (p : Running)
    → p.output ≡ output
    → (take_output protocol p).status ≡ p.status
take_output_status none protocol p e = elim (Bool-cases (protocol == 1)) [
  | inl e' ↦ rw (e, e') refl
  | inr e' ↦ rw (e, e') refl
]
take_output_status (some bytes) protocol p e = rw e refl

finish_unbroken :
    (waited : WaitStatus → WaitStatus) (protocol : ℕ) (p : Running)
    → p.got_break ≡ false
    → finish_run waited protocol p ≡ (true, take_output protocol p)
unfolding finish_run
finish_unbroken waited protocol p e = rw e refl

-- A run of a process without errors succeeds, with the status that was reaped last, and every piece
-- of the output was passed on, in order.
pub server_process_run-ToldAll :
    (teller : Teller) (inputs : Inputs) (pid stdinout_fd stderr_fd : ℕ) (c : Client)
    → IsStarted inputs.started pid stdinout_fd stderr_fd
    → 1 < c.protocol
    → teller.Takes c
    → All IsQuiet inputs.events
    → All (λ events. All IsQuiet events) inputs.rounds
    → (end : Client) × (p : Running) × (server_process_run inputs c ≡ done (true, p) end)
      × ToldAll teller.Told c (pieces (all_events inputs)) end
      × teller.Takes end
      × (p.status ≡ reaped_status (exited 0) (all_events inputs))
unfolding server_process_run
server_process_run-ToldAll teller inputs pid stdinout_fd stderr_fd c started new takes now quiet =
    let ran = run_loop_ran teller inputs pid stdinout_fd stderr_fd c started new takes now quiet in
    let last = close_down ran.end.protocol ran.after in
    (
      ran.end,
      take_output ran.end.protocol last,
      bind_done (run_loop inputs) _ c ran.runs
          ∙ bind_done client _ ran.end refl
          ∙ ap (λ (x : Bool × Running). done x ran.end)
              (finish_unbroken inputs.waited ran.end.protocol last ran.unbroken),
      ran.told,
      ran.takes,
      take_output_status last.output ran.end.protocol last refl ∙ ran.keeps_status,
    )
