-- ===== src/Reply/Run.antt =====
-- A command that the server runs (server/process.c, server/commands.c), and what the client's
-- simplified interface collects of it (client/api.c).
use remctl.Base.{
  ℕ, suc, ◌≡◌, ◌<◌, ◌≤◌, refl, ap, ◌∙◌, Bool, true, some, List, [], ◌∷◌, ◌++◌, append_assoc, length,
  length-append, length-map, map, All, Bytes, arith,
}
use remctl.Base.Int.{ℤ, pos}
use remctl.Channel.{Received, token}
use remctl.Server.Rule.{Rule}
use remctl.Server.Session.{v2, Client, M, done, bind_done, ◌>>=◌}
use remctl.Server.Callbacks.{finish_by, finish}
use remctl.Server.Commands.Process.{exited, exit_code, Process, Host, Finished}
use remctl.Server.Commands.Dispatch.{execute}
use remctl.Server.V2.Messages.{command_finish}
use remctl.Server.Process.{Inputs, output_of}
use remctl.Server.Process.Delivered.{IsQuiet, pieces, reaped_status}
use remctl.Server.Process.Played.{IsStarted, all_events}
use remctl.Server.Process.Hosted.{host_of, run_process-done}
use remctl.Server.Process.Tokens.{told_all, server_process_run-Outputs}
use remctl.Client.V2.Output.{status, signed, read_result}
use remctl.Client.Session.{World, Remctl}
use remctl.Client.Simple.{empty_result, collect_sent}
use remctl.Client.Simple.Collected.{Outputs, added, reading, collect-Outputs}
use remctl.Reply.{told, command_finish-signed, signed_small}

finish-v2 :
    (output : Bytes) (code : ℤ) (c : Client)
    → c.callbacks ≡ v2
    → finish output code c ≡ command_finish code c
unfolding finish ◌>>=◌
finish-v2 output code c e = ap (λ h. finish_by h output code c) e

-- An exit status is sent behind the output, and is what the function returns.
pub execute-signed :
    (host : Host) (config : List Rule) (process : Process) (run : Finished) (n : ℕ) (c d : Client)
    → host.process_run process c ≡ done run d
    → run.ok ≡ true
    → run.status ≡ exited n
    → d.callbacks ≡ v2
    → d.channel.outcomes ≡ []
    → n ≤ 255
    → (last : Bytes) × (execute host config process c ≡ done (pos n) (told d last))
      × (read_result last ≡ some (status (signed n)))
unfolding execute exit_code
execute-signed host config process run n c d runs ok exits new reliable small =
    let (last, sends, reads) = command_finish-signed n d small reliable in
    (
      last,
      bind_done (host.process_run process) _ c runs
          ∙ rw (ok, exits)
              (bind_done (finish run.output (pos n)) _ d
                (finish-v2 run.output (pos n) d new ∙ sends)),
      reads,
    )

pub told-told_all :
    (c : Client) (tokens : List Bytes) (last : Bytes)
    → told (told_all c tokens) last ≡ told_all c (tokens ++ last ∷ [])
told-told_all c tokens last =
    ap (λ sent. record c { channel = record c.channel { sent = sent } })
      (append_assoc c.channel.sent tokens (last ∷ []))

enough :
    (tokens : List Bytes) (last : Bytes) (rest : List Received)
    → length tokens < suc (length (map token tokens ++ token last ∷ rest))
enough tokens last rest =
    omega (arith, length-append (map token tokens) (token last ∷ rest), length-map token tokens)

-- What the client collects of a command's tokens, from a session that has sent it.
collected :
    (r : Remctl) (fd : ℕ) (tokens : List Bytes) (items : List (ℕ × Bytes)) (last : Bytes) (code : ℤ)
    (rest : List Received)
    → Outputs tokens items
    → read_result last ≡ some (status code)
    → (world : World) × (collect_sent (true, reading r fd (map token tokens ++ token last ∷ rest))
        ≡ some (record (added items empty_result) { status = code }, world))
unfolding collect_sent
collected r fd tokens items last code rest outputs reads =
    collect-Outputs (suc (length (map token tokens ++ token last ∷ rest))) fd r tokens items last
      code rest empty_result outputs reads (enough tokens last rest)

-- For a client in protocol version two or above with the callbacks of server-v2.c, over a channel
-- that takes every token, the server runs a process that is started, has no errors, writes pieces
-- of at most TOKEN_MAX_DATA - 7 octets, and exits with a status below 128. The client, from a
-- session of protocol version two that has sent the command, collects from the server's tokens all
-- that the process wrote on each stream, in order, and its exit status, whatever comes behind.
pub execute-collect_sent :
    (permit : Rule → M Bool) (path_sudo : Bytes) (inputs : Process → Inputs) (config : List Rule)
    (process : Process) (pid stdinout_fd stderr_fd n : ℕ) (c : Client) (r : Remctl) (fd : ℕ)
    (rest : List Received)
    → IsStarted (inputs process).started pid stdinout_fd stderr_fd
    → All IsQuiet (inputs process).events
    → All (λ events. All IsQuiet events) (inputs process).rounds
    → reaped_status (exited 0) (all_events (inputs process)) ≡ exited n
    → n < 128
    → 1 < c.protocol
    → c.callbacks ≡ v2
    → c.channel.outcomes ≡ []
    → (tokens : List Bytes) × (last : Bytes) × (execute
          (host_of permit path_sudo inputs)
          config
          process
          c
        ≡ done (pos n) (told_all c (tokens ++ last ∷ [])))
      × (world : World) × (collect_sent (true, reading r fd (map token tokens ++ token last ∷ rest))
          ≡ some (
            record (added (pieces (all_events (inputs process))) empty_result) { status = pos n },
            world,
          ))
execute-collect_sent permit path_sudo inputs config process pid stdinout_fd stderr_fd n c r fd rest
      started now quiet exits small new by_v2 reliable =
    let (tokens, p, ran, outputs, reaped) =
      server_process_run-Outputs (inputs process) pid stdinout_fd stderr_fd c started new by_v2
        reliable now quiet in
    let (last, executed, reads) =
      execute-signed (host_of permit path_sudo inputs) config process
        (record { ok = true; status = p.status; output = output_of p.output }) n c
        (told_all c tokens) (run_process-done inputs process c (told_all c tokens) p ran) refl
        (reaped ∙ exits) by_v2 reliable (omega arith) in
    let (world, collects) =
      collected r fd tokens (pieces (all_events (inputs process))) last (pos n) rest outputs
        (reads ∙ ap (λ code. some (status code)) (signed_small n small)) in
    (tokens, last, executed ∙ ap (done (pos n)) (told-told_all c tokens last), world, collects)
