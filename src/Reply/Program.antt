-- ===== src/Reply/Program.antt =====
-- A command that the server runs, and what the program remctl makes of it (client/remctl.c).
use remctl.Base.{
  ℕ, ◌≤◌, ◌<◌, ◌≡◌, refl, ◌∙◌, inl, inr, Bool, true, ltb, Bool-cases, some, List, [], ◌∷◌, ◌++◌,
  map, All, Bytes, ap, arith,
}
use remctl.Base.Int.{pos}
use remctl.Channel.{Received, token}
use remctl.Server.Rule.{Rule}
use remctl.Server.Session.{v2, Client, M, done}
use remctl.Server.Commands.Process.{exited, Process}
use remctl.Server.Commands.Dispatch.{execute}
use remctl.Server.Process.{Inputs, output_of}
use remctl.Server.Process.Delivered.{IsQuiet, pieces, reaped_status}
use remctl.Server.Process.Played.{IsStarted, all_events}
use remctl.Server.Process.Tokens.{told_all, server_process_run-Outputs}
use remctl.Client.V2.Output.{signed}
use remctl.Client.Session.{Remctl}
use remctl.Client.Simple.Collected.{reading}
use remctl.Client.Program.{exits, exit_status, Response, no_output, process_response}
use remctl.Client.Program.Printed.{shown, process_response-Outputs}
use remctl.Server.Process.Hosted.{host_of, run_process-done}
use remctl.Reply.Run.{execute-signed, told-told_all}

-- The exit status that the caller of the program sees is the octet that was sent.
exit_status-signed : (n : ℕ) → n ≤ 255 → exit_status (exits (signed n)) ≡ n
unfolding exit_status signed
exit_status-signed n h = elim (Bool-cases (ltb n 128)) [
  | inl e ↦ rw e (omega (arith, h))
  | inr e ↦ rw e (omega (arith, h))
]

-- For a client in protocol version two or above with the callbacks of server-v2.c, over a channel
-- that takes every token, the server runs a process that is started, has no errors, writes pieces
-- of at most TOKEN_MAX_DATA - 7 octets, and exits with a status of at most 255. The program remctl,
-- from a session of protocol version two that has sent the command, prints from the server's tokens
-- all that the process wrote, on the stream where it was written and in order, and its caller sees
-- the exit status of the process, whatever comes behind.
pub execute-process_response :
    (permit : Rule → M Bool) (path_sudo : Bytes) (inputs : Process → Inputs) (config : List Rule)
    (process : Process) (pid stdinout_fd stderr_fd n : ℕ) (c : Client) (r : Remctl) (fd : ℕ)
    (rest : List Received)
    → IsStarted (inputs process).started pid stdinout_fd stderr_fd
    → All IsQuiet (inputs process).events
    → All (λ events. All IsQuiet events) (inputs process).rounds
    → reaped_status (exited 0) (all_events (inputs process)) ≡ exited n
    → n ≤ 255
    → 1 < c.protocol
    → c.callbacks ≡ v2
    → c.channel.outcomes ≡ []
    → (tokens : List Bytes) × (last : Bytes) × (execute
          (host_of permit path_sudo inputs)
          config
          process
          c
        ≡ done (pos n) (told_all c (tokens ++ last ∷ [])))
      × (response : Response) × (process_response
            (reading r fd (map token tokens ++ token last ∷ rest))
          ≡ some response)
      × (response.console ≡ shown (pieces (all_events (inputs process))) no_output)
      × (exit_status response.ending ≡ n)
execute-process_response permit path_sudo inputs config process pid stdinout_fd stderr_fd n c r fd
      rest started now quiet exited_n small new by_v2 reliable =
    let (tokens, p, ran, outputs, reaped) =
      server_process_run-Outputs (inputs process) pid stdinout_fd stderr_fd c started new by_v2
        reliable now quiet in
    let (last, executed, reads) =
      execute-signed (host_of permit path_sudo inputs) config process
        (record { ok = true; status = p.status; output = output_of p.output }) n c
        (told_all c tokens) (run_process-done inputs process c (told_all c tokens) p ran) refl
        (reaped ∙ exited_n) by_v2 reliable small in
    let (session, printed) =
      process_response-Outputs fd r tokens (pieces (all_events (inputs process))) last (signed n)
        rest outputs reads in
    (
      tokens,
      last,
      executed ∙ ap (done (pos n)) (told-told_all c tokens last),
      record {
        ending = exits (signed n);
        console = shown (pieces (all_events (inputs process))) no_output;
        session = session;
      },
      printed,
      refl,
      exit_status-signed n small,
    )
