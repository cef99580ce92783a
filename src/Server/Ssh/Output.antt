-- ===== src/Server/Ssh/Output.antt =====
-- A whole run of a process without errors for remctl-shell (server/server-ssh.c): what it writes
-- comes out on the standard output and the standard error of the program.
use remctl.Base.{
  ℕ, ◌<◌, ◌≡◌, refl, sym, ap, ◌∙◌, ◌⊎◌, inl, inr, Bool-cases, Bool, true, ◌==◌, if◌then◌else◌, List,
  [], ◌∷◌, ◌++◌, append_assoc, append-nil, All, Bytes,
}
use remctl.Base.Int.{ℤ, pos}
use remctl.Server.Rule.{Rule}
use remctl.Server.Session.{ssh, Terminal, Client, M, done, bind_done, ◌>>=◌}
use remctl.Server.Callbacks.{finish_by, finish}
use remctl.Server.Commands.Process.{exited, exit_code, Process}
use remctl.Server.Commands.Dispatch.{execute}
use remctl.Server.Ssh.Messages as Ssh
use remctl.Server.Ssh.Messages.{put, write_next, write}
use remctl.Server.Process.{
  Stream, readable, Running, Inputs, stream_number, write_output, output_by, output_of,
  handle_readable, handle_event, run_process,
}
use remctl.Server.Process.Hosted.{host_of, run_process-done}
use remctl.Server.Process.Delivered.{Teller, ToldAll, IsQuiet, pieces, number_cases, reaped_status}
use remctl.Server.Process.Played.{IsStarted, all_events, server_process_run-ToldAll}

-- A client of remctl-shell whose descriptors take every write.
abbrev pub TakesWrites : Client → Type 0
TakesWrites c = (c.callbacks ≡ ssh) × (c.terminal.writes ≡ [])

-- The client once `bytes` were written to a descriptor.
abbrev written : Client → ℕ × Bytes → Client
written c (fd, bytes) = record c { terminal = put fd bytes c.terminal }

write-taken :
    (fd : ℕ) (bytes : Bytes) (c : Client)
    → c.terminal.writes ≡ []
    → write fd bytes c ≡ done true (written c (fd, bytes))
unfolding write write_next ◌>>=◌
write-taken fd bytes c e = ap (λ writes. write_next fd bytes c.terminal writes c) e

readable_ssh :
    (stream : Stream) (bytes : Bytes) (p : Running) (c : Client)
    → c.callbacks ≡ ssh
    → handle_event (readable stream bytes) p c ≡ write_output stream bytes p c
unfolding handle_event handle_readable output_by ◌>>=◌
readable_ssh stream bytes p c e = ap (λ h. output_by h stream bytes p c) e

put_writes : (fd : ℕ) (bytes : Bytes) (t : Terminal) → (put fd bytes t).writes ≡ t.writes
unfolding put
put_writes fd bytes t = elim (Bool-cases (fd == 1)) [ inl e ↦ rw e refl | inr e ↦ rw e refl ]

-- A piece of output is written.
output_written :
    (stream : Stream) (bytes : Bytes) (p : Running) (c : Client)
    → TakesWrites c
    → handle_event (readable stream bytes) p c
      ≡ done (record p { saw_output = true }) (written c (stream_number stream, bytes))
unfolding write_output
output_written stream bytes p c (by_ssh, taken) =
    readable_ssh stream bytes p c by_ssh
    ∙ bind_done (write (stream_number stream) bytes) _ c
        (write-taken (stream_number stream) bytes c taken)

abbrev ToldTerminal : Client → ℕ × Bytes → Client → Type 0
ToldTerminal c (fd, bytes) d = (d ≡ written c (fd, bytes)) × ((fd ≡ 1) ⊎ (fd ≡ 2))

abbrev terminal_teller : Teller
terminal_teller = record {
  Takes = TakesWrites;
  Told = ToldTerminal;
  tells = λ stream bytes p c takes small. (
    written c (stream_number stream, bytes),
    output_written stream bytes p c takes,
    (refl, number_cases stream),
    (takes.0, put_writes (stream_number stream) bytes c.terminal ∙ takes.1),
  );
}

-- What the pieces of output have on a stream.
unfoldable pub on_stream : ℕ → List (ℕ × Bytes) → Bytes
on_stream stream [] = []
on_stream stream ((number, bytes) ∷ items) =
    if number == stream then bytes ++ on_stream stream items else on_stream stream items

-- The terminal with all of the pieces, each behind what is on its stream.
abbrev pub grown : Terminal → List (ℕ × Bytes) → Terminal
grown t items = record t {
  stdout = t.stdout ++ on_stream 1 items;
  stderr = t.stderr ++ on_stream 2 items;
}

grown-put :
    (fd : ℕ) (bytes : Bytes) (t : Terminal) (items : List (ℕ × Bytes))
    → (fd ≡ 1) ⊎ (fd ≡ 2)
    → grown (put fd bytes t) items ≡ grown t ((fd, bytes) ∷ items)
unfolding put on_stream
grown-put fd bytes t items (inl e) = rw e (
    ap (λ out. record t { stdout = out; stderr = t.stderr ++ on_stream 2 items })
      (append_assoc t.stdout bytes (on_stream 1 items)))
grown-put fd bytes t items (inr e) = rw e (
    ap (λ out. record t { stdout = t.stdout ++ on_stream 1 items; stderr = out })
      (append_assoc t.stderr bytes (on_stream 2 items)))

-- The client with all of the pieces on its terminal.
abbrev pub shows : Client → List (ℕ × Bytes) → Client
shows c items = record c { terminal = grown c.terminal items }

told_terminal :
    (c e : Client) (items : List (ℕ × Bytes)) → ToldAll ToldTerminal c items e → e ≡ shows c items
unfolding on_stream
told_terminal c e [] h =
    sym h
    ∙ ap
        (λ (t : Bytes × Bytes). record c {
          terminal = record c.terminal { stdout = t.0; stderr = t.1 };
        })
        (λ i. (sym (append-nil c.terminal.stdout) i, sym (append-nil c.terminal.stderr) i))
told_terminal c e ((fd, bytes) ∷ items) (d, (same, numbered), more) =
    told_terminal d e items more
    ∙ ap (λ x. shows x items) same
    ∙ ap (λ t. record c { terminal = t }) (grown-put fd bytes c.terminal items numbered)

finish_ssh :
    (output : Bytes) (code : ℤ) (c : Client)
    → c.callbacks ≡ ssh
    → finish output code c ≡ done true c
unfolding finish Ssh.command_finish ◌>>=◌
finish_ssh output code c e = ap (λ h. finish_by h output code c) e

-- Where remctl-shell runs a process without errors that exits, all that the process writes comes
-- out on the stream where it was written, in order, and the function returns the exit status.
pub execute-shows :
    (permit : Rule → M Bool) (path_sudo : Bytes) (inputs : Process → Inputs) (config : List Rule)
    (process : Process) (pid stdinout_fd stderr_fd n : ℕ) (c : Client)
    → IsStarted (inputs process).started pid stdinout_fd stderr_fd
    → All IsQuiet (inputs process).events
    → All (λ events. All IsQuiet events) (inputs process).rounds
    → reaped_status (exited 0) (all_events (inputs process)) ≡ exited n
    → 1 < c.protocol
    → TakesWrites c
    → execute (host_of permit path_sudo inputs) config process c
      ≡ done (pos n) (shows c (pieces (all_events (inputs process))))
unfolding execute exit_code
execute-shows permit path_sudo inputs config process pid stdinout_fd stderr_fd n c started now quiet
      exits new takes =
    let (end, p, ran, told, ends_taking, reaped) =
      server_process_run-ToldAll terminal_teller (inputs process) pid stdinout_fd stderr_fd c
        started new takes now quiet in
    bind_done (run_process inputs process) _ c (run_process-done inputs process c end p ran)
    ∙ rw (reaped ∙ exits) (
        bind_done (finish (output_of p.output) (pos n)) _ end
          (finish_ssh (output_of p.output) (pos n) end ends_taking.0))
    ∙ ap (done (pos n)) (told_terminal c end (pieces (all_events (inputs process))) told)
