-- ===== src/Server/Process/Ends.antt =====
-- The running of a process ends and reads no token of the client's.
use remctl.Base.{ℕ, Bool, not, ◌&&◌, ltb, Option, none, some, List, [], ◌∷◌, Bytes}
use remctl.Base.Int.{negsuc}
use remctl.Server.Session.{Handlers, v1, v2, ssh, client, M, ◌>>=◌}
use remctl.Server.Frugal.{Frugal, Frugal-bind, Frugal-pure, Frugal-client, Frugal-if, frugal_rules}
use remctl.Server.Frugal.Messages.{Frugal-error, Frugal-send_output, Frugal-write}
use remctl.Server.Commands.Process.{WaitStatus, Process}
use remctl.Server.Process.{
  Stream, Event, readable, input_sent, io_event, child_signal, IoEvent, Started, Running, cleared,
  report_internal, server_handle_io_event, server_handle_input_end, handle_exit, handle_output,
  write_output, output_by, handle_readable, handle_event, start_fork, start_stderr, start, dispatch,
  drain, Inputs, run_loop, server_process_run, run_process,
}

Frugal-report_internal : (p : Running) → Frugal (report_internal p)
unfolding report_internal
Frugal-report_internal p = search (frugal_rules, Frugal-error)

Frugal-handle_io_event :
    (stream : Stream) (events : IoEvent) (p : Running)
    → Frugal (server_handle_io_event stream events p)
unfolding server_handle_io_event
Frugal-handle_io_event stream events p = search (frugal_rules, Frugal-report_internal)

Frugal-handle_input_end :
    (succeeds : Bool) (p : Running) → Frugal (server_handle_input_end succeeds p)
unfolding server_handle_input_end
Frugal-handle_input_end succeeds p = search frugal_rules

Frugal-handle_exit : (status : Option WaitStatus) (p : Running) → Frugal (handle_exit status p)
unfolding handle_exit
Frugal-handle_exit none p = search frugal_rules
Frugal-handle_exit (some status) p = search frugal_rules

Frugal-handle_output :
    (stream : Stream) (bytes : Bytes) (p : Running) → Frugal (handle_output stream bytes p)
unfolding handle_output
Frugal-handle_output stream bytes p = search (frugal_rules, Frugal-send_output)

Frugal-write_output :
    (stream : Stream) (bytes : Bytes) (p : Running) → Frugal (write_output stream bytes p)
unfolding write_output
Frugal-write_output stream bytes p = search (frugal_rules, Frugal-write)

Frugal-output_by :
    (handlers : Handlers) (stream : Stream) (bytes : Bytes) (p : Running)
    → Frugal (output_by handlers stream bytes p)
unfolding output_by
Frugal-output_by v1 stream bytes p = search frugal_rules
Frugal-output_by v2 stream bytes p = Frugal-handle_output stream bytes p
Frugal-output_by ssh stream bytes p = Frugal-write_output stream bytes p

Frugal-handle_event : (event : Event) (p : Running) → Frugal (handle_event event p)
unfolding handle_event handle_readable
Frugal-handle_event (readable stream bytes) p = search (frugal_rules, Frugal-output_by)
Frugal-handle_event (input_sent succeeds) p = Frugal-handle_input_end succeeds p
Frugal-handle_event (io_event stream events) p = Frugal-handle_io_event stream events p
Frugal-handle_event (child_signal status) p = Frugal-handle_exit status p

Frugal-dispatch : (events : List Event) (p : Running) → Frugal (dispatch events p)
unfolding dispatch
Frugal-dispatch [] p = Frugal-pure p
Frugal-dispatch (event ∷ events) p =
    Frugal-if p.got_break (Frugal-pure p)
      (Frugal-bind (Frugal-handle_event event p) (Frugal-dispatch events))

Frugal-drain : (rounds : List (List Event)) (p : Running) → Frugal (drain rounds p)
unfolding drain
Frugal-drain [] p = Frugal-pure _
Frugal-drain (events ∷ rounds) p =
    Frugal-if (p.saw_output && not p.got_break)
      (Frugal-bind (Frugal-dispatch events _) (Frugal-drain rounds)) (Frugal-pure p)

Frugal-start_fork :
    (fork : Option ℕ) (stdinout_fd stderr_fd : ℕ) (p : Running)
    → Frugal (start_fork fork stdinout_fd stderr_fd p)
unfolding start_fork
Frugal-start_fork none stdinout_fd stderr_fd p =
    Frugal-report_internal (record p { pid = negsuc 0 })
Frugal-start_fork (some pid) stdinout_fd stderr_fd p = Frugal-pure _

Frugal-start_stderr :
    (protocol : ℕ) (started : Started) (stdinout_fd : ℕ) (p : Running)
    → Frugal (start_stderr protocol started stdinout_fd p)
unfolding start_stderr
Frugal-start_stderr protocol started stdinout_fd p =
    Frugal-if (ltb 1 protocol) (pair started.stderr_pair)
      (Frugal-start_fork started.fork stdinout_fd p.stderr_fd p)
  where
    pair :
        (stderr_pair : Option ℕ)
        → Frugal (elim stderr_pair as (λ x. M Running) [
          | none ↦ report_internal p
          | some stderr_fd ↦ start_fork started.fork stdinout_fd stderr_fd p
        ])
    pair none = Frugal-report_internal p
    pair (some stderr_fd) = Frugal-start_fork started.fork stdinout_fd stderr_fd p

Frugal-start : (started : Started) (p : Running) → Frugal (start started p)
unfolding start
Frugal-start started p = pair started.stdinout_pair
  where
    pair :
        (stdinout_pair : Option ℕ)
        → Frugal (elim stdinout_pair as (λ x. M Running) [
          | none ↦ report_internal p
          | some stdinout_fd ↦ (client >>= λ c. start_stderr c.protocol started stdinout_fd p)
        ])
    pair none = Frugal-report_internal p
    pair (some stdinout_fd) =
        Frugal-bind Frugal-client (λ c. Frugal-start_stderr c.protocol started stdinout_fd p)

Frugal-run_loop : (inputs : Inputs) → Frugal (run_loop inputs)
unfolding run_loop
Frugal-run_loop inputs =
    Frugal-bind (Frugal-start inputs.started cleared)
      (λ p. Frugal-bind (Frugal-dispatch inputs.events p) (λ p'. Frugal-drain inputs.rounds _))

-- `server_process_run` ends on any finite lists of events, and leaves the client's tokens.
pub Frugal-run_process :
    (inputs : Process → Inputs) (process : Process) → Frugal (run_process inputs process)
unfolding run_process server_process_run
Frugal-run_process inputs process = search (frugal_rules, Frugal-run_loop)
