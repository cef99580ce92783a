-- ===== src/Server/Process/Failed.antt =====
-- A process that cannot be started.
use remctl.Base.{
  ℕ, ◌≡◌, refl, ap, ◌∙◌, Bool, true, false, Bool-cases, inl, inr, ltb, Option, none, some, List, [],
  ◌∷◌, if◌then◌else◌, codes,
}
use remctl.Base.Int.{negsuc}
use remctl.Protocol.{internal}
use remctl.Server.Session.{Client, done, client, bind_done, ◌>>=◌}
use remctl.Server.Callbacks.{error}
use remctl.Server.Commands.Process.{WaitStatus}
use remctl.Server.Process.{
  Event, Started, Running, Inputs, cleared, broken, report_internal, start, start_stderr,
  start_fork, dispatch, drain, run_loop, close_down, finish_run, server_process_run,
}

-- One of the calls that are made fails.
unfoldable pub start_fails : ℕ → Started → Bool
start_fails protocol started = elim started.stdinout_pair as (λ x. Bool) [
  | none ↦ true
  | some stdinout_fd ↦
      (if ltb 1 protocol
        then (elim started.stderr_pair as (λ x. Bool) [
          | none ↦ true
          | some stderr_fd ↦ (elim started.fork as (λ x. Bool) [ none ↦ true | some pid ↦ false ])
        ])
        else (elim started.fork as (λ x. Bool) [ none ↦ true | some pid ↦ false ]))
]

-- The structure still has the zeros that it was cleared with.
abbrev Unset : Started → Client → Type 0
Unset started c =
    (p : Running) × (start started cleared c ≡ report_internal p c)
    × (p.stdinout_fd ≡ 0)
    × (p.stderr_fd ≡ 0)
    × (p.closed ≡ [])

abbrev no_fork : Running
no_fork = record cleared { pid = negsuc 0 }

start-Unset :
    (stdinout stderr fork : Option ℕ) (new : Bool) (started : Started) (c : Client)
    → started.stdinout_pair ≡ stdinout
    → started.stderr_pair ≡ stderr
    → started.fork ≡ fork
    → ltb 1 c.protocol ≡ new
    → start_fails c.protocol started ≡ true
    → Unset started c
unfolding start start_stderr start_fork start_fails ◌>>=◌
start-Unset none stderr fork new started c e1 e2 e3 e4 h = (cleared, rw e1 refl, refl, refl, refl)
start-Unset (some a) none fork true started c e1 e2 e3 e4 h =
    (cleared, rw (e1, e4, e2) refl, refl, refl, refl)
start-Unset (some a) (some b) none true started c e1 e2 e3 e4 h =
    (no_fork, rw (e1, e4, e2, e3) refl, refl, refl, refl)
start-Unset (some a) (some b) (some x) true started c e1 e2 e3 e4 h =
    absurd (cc (rw (e1, e4, e2, e3) at h))
start-Unset (some a) stderr none false started c e1 e2 e3 e4 h =
    (no_fork, rw (e1, e4, e3) refl, refl, refl, refl)
start-Unset (some a) stderr (some x) false started c e1 e2 e3 e4 h =
    absurd (cc (rw (e1, e4, e3) at h))

dispatch_broken :
    (events : List Event) (p : Running) (c : Client)
    → p.got_break ≡ true
    → dispatch events p c ≡ done p c
unfolding dispatch
dispatch_broken [] p c e = refl
dispatch_broken (event ∷ events) p c e = rw e refl

drain_broken :
    (rounds : List (List Event)) (p : Running) (c : Client)
    → p.saw_output ≡ true
    → p.got_break ≡ true
    → drain rounds p c ≡ done p c
unfolding drain
drain_broken [] p c e1 e2 = rw (e1, e2) refl
drain_broken (events ∷ rounds) p c e1 e2 = rw (e1, e2) refl

reported :
    (p : Running) (c d : Client) (sent : Bool)
    → error internal (codes "Internal failure") c ≡ done sent d
    → report_internal p c ≡ done (broken p) d
unfolding report_internal
reported p c d sent told = bind_done (error internal (codes "Internal failure")) _ c told

run_broken :
    (inputs : Inputs) (p : Running) (c d : Client)
    → start inputs.started cleared c ≡ done (broken p) d
    → run_loop inputs c ≡ done (record (broken p) { saw_output = true }) d
unfolding run_loop
run_broken inputs p c d starts =
    bind_done (start inputs.started cleared) _ c starts
    ∙ bind_done (dispatch inputs.events (broken p)) _ d
        (dispatch_broken inputs.events (broken p) d refl)
    ∙ drain_broken inputs.rounds (record (broken p) { saw_output = true }) d refl refl

finish_broken :
    (waited : WaitStatus → WaitStatus) (protocol : ℕ) (p : Running)
    → p.got_break ≡ true
    → (p' : Running) × (finish_run waited protocol p ≡ (false, p')) × (p'.closed ≡ p.closed)
unfolding finish_run
finish_broken waited protocol p e = elim (Bool-cases p.reaped) [
  | inl reaped ↦ (p, rw (e, reaped) refl, refl)
  | inr reaped ↦ (record p { status = waited p.status }, rw (e, reaped) refl, refl)
]

closed_zero :
    (p : Running) (protocol : ℕ)
    → p.stdinout_fd ≡ 0
    → p.stderr_fd ≡ 0
    → p.closed ≡ []
    → (close_down protocol p).closed ≡ 0 ∷ (if ltb 1 protocol then 0 ∷ [] else [])
closed_zero p protocol e1 e2 e3 = rw (e1, e2, e3) refl

-- Where socketpair or fork fails, the client is told of an internal error, the run fails, and
-- descriptor 0 is closed, in protocol version two and above twice, though it was never opened for
-- the process.
pub server_process_run_closes_zero :
    (inputs : Inputs) (c d : Client) (sent : Bool)
    → start_fails c.protocol inputs.started ≡ true
    → error internal (codes "Internal failure") c ≡ done sent d
    → (p : Running) × (server_process_run inputs c ≡ done (false, p) d)
      × (p.closed ≡ 0 ∷ (if ltb 1 d.protocol then 0 ∷ [] else []))
unfolding server_process_run
server_process_run_closes_zero inputs c d sent fails told =
    let (p, starts, zero_out, zero_err, nothing) =
      start-Unset inputs.started.stdinout_pair inputs.started.stderr_pair inputs.started.fork
        (ltb 1 c.protocol) inputs.started c refl refl refl refl fails in
    let last : Running = close_down d.protocol (record (broken p) { saw_output = true }) in
    let (p', finishes, same) = finish_broken inputs.waited d.protocol last refl in
    (
      p',
      bind_done (run_loop inputs) _ c (run_broken inputs p c d (starts ∙ reported p c d sent told))
          ∙ bind_done client _ d refl
          ∙ ap (λ (x : Bool × Running). done x d) finishes,
      same
          ∙ closed_zero (record (broken p) { saw_output = true }) d.protocol zero_out zero_err
              nothing,
    )
