-- ===== src/Server/Process.antt =====
-- `server_process_run` of server/process.c, with the output handlers of server/server-v1.c,
-- server/server-v2.c and server/server-ssh.c. What socketpair, fork and waitpid come to, and the
-- events that libevent hands to its callbacks in each run of its loop, are inputs.
pub mod Child
pub mod Delivered
pub mod Parts
pub mod Played
pub mod Tokens
pub mod Hosted
pub mod Failed
pub mod Ends
mod Tests
use remctl.Base.{
  ℕ, ◌&&◌, ◌||◌, Bool, true, false, not, Option, none, some, List, [], ◌∷◌, ◌++◌, length, leb, ltb,
  ◌==◌, if◌then◌else◌, Bytes, codes,
}
use remctl.Base.Int.{ℤ, pos, negsuc}
use remctl.Protocol.{internal, token_max_output_v1}
use remctl.Server.Session.{
  Handlers, v1, v2, ssh, Client, M, died, pure, raise, client, set_fatal, ◌>>=◌, ◌>>◌,
}
use remctl.Server.Ssh.Messages.{write}
use remctl.Server.Callbacks.{error}
use remctl.Server.Commands.Process.{WaitStatus, exited, Process, Finished}
use remctl.Server.V2.Messages.{send_output}

-- The bufferevents `inout` and `err`.
pub data Stream : Type 0 where
  inout err : Stream

-- The flags of an error event, and whether errno is ECONNRESET or EPIPE.
pub record IoEvent : Type 0 where
  pub is_eof : Bool
  pub is_error : Bool
  pub client_gone : Bool

-- What libevent calls back: data has come into the buffer of a bufferevent; the input is sent, and
-- whether shutdown succeeds then; an error event; and SIGCHLD, with the status that waitpid reaps.
pub data Event : Type 0 where
  readable : Stream → Bytes → Event
  input_sent : Bool → Event
  io_event : Stream → IoEvent → Event
  child_signal : Option WaitStatus → Event

-- What the calls of `start` come to: the parent's descriptor of each socket pair, and the pid of the
-- child; `none` is a call that fails.
pub record Started : Type 0 where
  pub stdinout_pair : Option ℕ
  pub stderr_pair : Option ℕ
  pub fork : Option ℕ

-- The rest of `struct process`: `buffered` is the data that `inout` holds, `discards` says that its
-- callback is `handle_output_discard`, `got_break` is event_base_got_break, and `closed` records
-- the descriptors that server_process_run closes at its end; those of the socket pairs, which `start`
-- closes itself, are not in it. What is disabled in the bufferevents is recorded too.
pub record Running : Type 0 where
  pub pid : ℤ
  pub stdinout_fd : ℕ
  pub stderr_fd : ℕ
  pub status : WaitStatus
  pub reaped : Bool
  pub saw_error : Bool
  pub saw_output : Bool
  pub output : Option Bytes
  pub buffered : Bytes
  pub discards : Bool
  pub got_break : Bool
  pub loop_exit : Bool
  pub shut : Bool
  pub stopped_reading : List Stream
  pub stopped_writing : List Stream
  pub closed : List ℕ

-- `memset` in the callers.
abbrev pub cleared : Running
cleared = record {
  pid = pos 0;
  stdinout_fd = 0;
  stderr_fd = 0;
  status = exited 0;
  reaped = false;
  saw_error = false;
  saw_output = false;
  output = none;
  buffered = [];
  discards = false;
  got_break = false;
  loop_exit = false;
  shut = false;
  stopped_reading = [];
  stopped_writing = [];
  closed = [];
}

-- An error ends the loop.
abbrev pub broken : Running → Running
broken p = record p { saw_error = true; got_break = true }

unfoldable pub report_internal : Running → M Running
report_internal p = error internal (codes "Internal failure") >> pure (broken p)

unfoldable pub server_handle_io_event : Stream → IoEvent → Running → M Running
unfolding report_internal
server_handle_io_event stream events p =
    if events.is_eof
    then pure (record p { stopped_reading = stream ∷ p.stopped_reading })
    else if events.is_error && events.client_gone
    then pure (record p { stopped_writing = stream ∷ p.stopped_writing })
    else report_internal p

unfoldable pub server_handle_input_end : Bool → Running → M Running
server_handle_input_end succeeds p =
    if succeeds
    then pure (record p { stopped_writing = inout ∷ p.stopped_writing; shut = true })
    else raise died

unfoldable pub handle_exit : Option WaitStatus → Running → M Running
handle_exit none p = pure p
handle_exit (some status) p = pure (record p { status = status; reaped = true; loop_exit = true })

unfoldable pub stream_number : Stream → ℕ
stream_number inout = 1
stream_number err = 2

-- `handle_output` of server/server-v2.c.
unfoldable pub handle_output : Stream → Bytes → Running → M Running
unfolding stream_number
handle_output stream bytes p = do
  sent ← send_output (stream_number stream) bytes
  (let seen = record p { saw_output = true } in if sent then pure seen else pure (broken seen))

-- The buffer of `inout`, once it has reached the watermark: `handle_output_full`, and from then on
-- `handle_output_discard`.
unfoldable pub handle_output_full : Bytes → Running → Running
handle_output_full bytes p = record p { output = some bytes; buffered = []; discards = true }

unfoldable pub handle_output_discard : Running → Running
handle_output_discard p = record p { buffered = [] }

-- The callback is called only where the buffer has reached the watermark.
unfoldable pub buffer_output : Bytes → Running → Running
unfolding handle_output_full handle_output_discard
buffer_output bytes p =
    if ltb (length bytes) token_max_output_v1
    then record p { buffered = bytes }
    else if p.discards
    then handle_output_discard p
    else handle_output_full bytes p

-- `handle_output` of server/server-ssh.c.
unfoldable pub write_output : Stream → Bytes → Running → M Running
unfolding stream_number
write_output stream bytes p = do
  written ← write (stream_number stream) bytes
  (let seen = record p { saw_output = true } in
      if written then pure seen else set_fatal true >> pure (broken seen))

-- The output callback that `setup` installs.
unfoldable pub output_by : Handlers → Stream → Bytes → Running → M Running
unfolding buffer_output handle_output write_output
output_by v1 stream bytes p = pure (buffer_output (p.buffered ++ bytes) p)
output_by v2 stream bytes p = handle_output stream bytes p
output_by ssh stream bytes p = write_output stream bytes p

unfoldable pub handle_readable : Stream → Bytes → Running → M Running
unfolding output_by
handle_readable stream bytes p = do c ← client; output_by c.callbacks stream bytes p

unfoldable pub handle_event : Event → Running → M Running
unfolding handle_readable server_handle_input_end server_handle_io_event handle_exit
handle_event (readable stream bytes) p = handle_readable stream bytes p
handle_event (input_sent succeeds) p = server_handle_input_end succeeds p
handle_event (io_event stream events) p = server_handle_io_event stream events p
handle_event (child_signal status) p = handle_exit status p

unfoldable pub start_fork : Option ℕ → ℕ → ℕ → Running → M Running
unfolding report_internal
start_fork none stdinout_fd stderr_fd p = report_internal (record p { pid = negsuc 0 })
start_fork (some pid) stdinout_fd stderr_fd p =
    pure (record p { pid = pos pid; stdinout_fd = stdinout_fd; stderr_fd = stderr_fd })

-- The second socket pair is made from protocol version two on.
unfoldable pub start_stderr : ℕ → Started → ℕ → Running → M Running
unfolding start_fork
start_stderr protocol started stdinout_fd p =
    if ltb 1 protocol
    then (elim started.stderr_pair as (λ x. M Running) [
      | none ↦ report_internal p
      | some stderr_fd ↦ start_fork started.fork stdinout_fd stderr_fd p
    ])
    else start_fork started.fork stdinout_fd p.stderr_fd p

-- `start`, on the parent's side. Where it fails, the code closes the descriptors of the pairs that
-- were made, which the model does not record.
unfoldable pub start : Started → Running → M Running
unfolding start_stderr
start started p = elim started.stdinout_pair as (λ x. M Running) [
  | none ↦ report_internal p
  | some stdinout_fd ↦ (client >>= λ c. start_stderr c.protocol started stdinout_fd p)
]

-- One run of the loop: a break ends it.
unfoldable pub dispatch : List Event → Running → M Running
unfolding handle_event
dispatch [] p = pure p
dispatch (event ∷ events) p =
    if p.got_break then pure p else (handle_event event p >>= dispatch events)

-- The loop runs again as long as output is seen. Where the inputs have run out, no event comes.
unfoldable pub drain : List (List Event) → Running → M Running
unfolding dispatch
drain [] p = pure (if p.saw_output && not p.got_break then record p { saw_output = false } else p)
drain (events ∷ rounds) p =
    if p.saw_output && not p.got_break
    then (dispatch events (record p { saw_output = false }) >>= drain rounds)
    else pure p

-- "Close down the file descriptors now that we have all the data."
abbrev pub close_down : ℕ → Running → Running
close_down protocol p = record p {
  closed = p.closed ++ p.stdinout_fd ∷ (if ltb 1 protocol then p.stderr_fd ∷ [] else []);
}

-- The output for protocol version one that was not taken before.
abbrev pub take_output : ℕ → Running → Running
take_output protocol p = elim p.output [
  | none ↦ if protocol == 1 then record p { output = some p.buffered } else p
  | some bytes ↦ p
]

-- What is returned, and what the structure is then; `waited` is what waitpid leaves in the status
-- of a child that was not reaped.
unfoldable pub finish_run : (WaitStatus → WaitStatus) → ℕ → Running → Bool × Running
finish_run waited protocol p =
    if p.got_break
    then (false, if p.reaped then p else record p { status = waited p.status })
    else (true, take_output protocol p)

-- What comes from outside in a run: the calls of `start`, the events of the first run of the loop
-- and of the later ones, and the last waitpid.
pub record Inputs : Type 0 where
  pub started : Started
  pub events : List Event
  pub rounds : List (List Event)
  pub waited : WaitStatus → WaitStatus

unfoldable pub run_loop : Inputs → M Running
unfolding start drain
run_loop inputs = do
  p ← start inputs.started cleared
  p' ← dispatch inputs.events p
  drain inputs.rounds (record p' { saw_output = true })

unfoldable pub server_process_run : Inputs → M (Bool × Running)
unfolding run_loop finish_run
server_process_run inputs = do
  p ← run_loop inputs
  c ← client
  pure (finish_run inputs.waited c.protocol (close_down c.protocol p))

-- What the commands use of it.
abbrev pub output_of : Option Bytes → Bytes
output_of none = []
output_of (some bytes) = bytes

unfoldable pub run_process : (Process → Inputs) → Process → M Finished
unfolding server_process_run
run_process inputs process = do
  result ← server_process_run (inputs process)
  (let (ok, p) = result in
      pure (record { ok = ok; status = p.status; output = output_of p.output }))
