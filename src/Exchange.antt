-- ===== src/Exchange.antt =====
-- A whole exchange in protocol version two: a client of the library (client/api.c) sends a command,
-- the server (server/server-v2.c, server/commands.c, server/process.c) runs it, and the client
-- collects the result.
pub mod Denied
pub mod Serves
mod Tests
use remctl.Base.{
  ℕ, ◌+◌, ◌≤◌, ◌<◌, ◌≡◌, refl, sym, ap, ◌∙◌, Bool, true, false, not, ◌==◌, Option, none, some, List,
  [], ◌∷◌, ◌++◌, map, All, Bytes, arith,
}
use remctl.Base.Int.{ℤ, pos}
use remctl.Channel.{Received, token}
use remctl.Server.Rule.{Rule}
use remctl.Server.Session.{v2, Client, M, done, client, pure, bind_done, ◌>>=◌, ◌>>◌}
use remctl.Server.Commands.Argv.{xstrndup, create_argv_command}
use remctl.Server.Commands.Match.{find_config_line}
use remctl.Server.Commands.Nuls.{word_has_nul, arg_has_nul}
use remctl.Server.Commands.Granted.{IsGranted, process_of, run_command-execute}
use remctl.Server.Commands.Process.{exited, Process, Host}
use remctl.Server.Commands.Dispatch.{
  second, Request, first_request, execute, execute_command, authorize, check_args, lookup,
  run_command,
}
use remctl.Server.Process.{Inputs}
use remctl.Server.Process.Delivered.{IsQuiet, pieces, reaped_status}
use remctl.Server.Process.Played.{IsStarted, all_events}
use remctl.Server.Process.Tokens.{told_all}
use remctl.Server.V2.Collect.{resumed}
use remctl.Server.V2.Handle.{handle_token, not_fatal}
use remctl.Client.V2.{commandv, ready}
use remctl.Client.V2.Reliable.{IsReliable, after}
use remctl.Client.V2.Messages.{commandv_result}
use remctl.Client.Session.{World, Remctl, with_channel}
use remctl.Client.Api.{remctl_command, remctl_commandv, commandv_open, internal_reopen, reopen_fd}
use remctl.Client.Simple.{empty_result, collect_sent}
use remctl.Client.Simple.Collected.{added, reading}
use remctl.Delivery.{IsAccepted, arriving, command_delivered}
use remctl.Server.Process.Hosted.{host_of}
use remctl.Reply.Run.{execute-collect_sent}

-- The session that has sent the tokens of a command.
abbrev pub has_sent : Remctl → List Bytes → Remctl
has_sent r tokens =
    record (with_channel (after r.world.channel tokens) (record r { error = none })) {
      is_ready = true;
    }

reopen_fd-open :
    (o : Option ℕ) (fd : ℕ) (r : Remctl)
    → o ≡ some fd
    → reopen_fd o r ≡ (true, record r { error = none })
unfolding reopen_fd
reopen_fd-open o fd r e = rw e refl

pub remctl_command-sent :
    (r : Remctl) (fd : ℕ) (arg : Bytes) (args tokens : List Bytes)
    → r.fd ≡ some fd
    → (r.protocol == 1) ≡ false
    → commandv (arg ∷ args) r.world.channel ≡ (ready, after r.world.channel tokens)
    → remctl_command r (arg ∷ args) ≡ (true, has_sent r tokens)
unfolding remctl_command remctl_commandv internal_reopen commandv_open commandv_result
remctl_command-sent r fd arg args tokens is_open new sends =
    rw (reopen_fd-open r.fd fd r is_open, new, sends) refl

pub not_fatal-done : (d : Client) → not_fatal d ≡ done (not d.fatal) d
unfolding not_fatal ◌>>=◌
not_fatal-done d = refl

-- The client's session sends the command; the server, once the tokens have come in, and others
-- behind them, answers; and from the answers, and others behind them, the client collects what the
-- process wrote on each stream and its exit status.
abbrev pub IsAnswered :
    (Rule → M Bool)
    → Bytes
    → (Process → Inputs)
    → List Rule
    → Bytes
    → List Bytes
    → Rule
    → ℕ
    → Client
    → Remctl
    → ℕ
    → List Received
    → List Received
    → Type 0
IsAnswered permit path_sudo inputs config arg args rule n c r fd behind rest =
    (first : Bytes) × (later answers : List Bytes) × (last : Bytes) × (remctl_command r (arg ∷ args)
      ≡ (true, has_sent r (first ∷ later)))
    × (handle_token (run_command (host_of permit path_sudo inputs) config) first
          (arriving c later behind)
        ≡ done (not c.fatal) (told_all (resumed c behind) (answers ++ last ∷ [])))
    × ((world : World) × (collect_sent
            (true, reading (has_sent r (first ∷ later)) fd (map token answers ++ token last ∷ rest))
          ≡ some (
            record (added (pieces (all_events (inputs (process_of path_sudo arg args rule))))
                empty_result) { status = pos n },
            world,
          )))

-- A command of 1 to COMMAND_MAX_ARGS arguments, each shorter than 2^32 octets, whose payload is
-- shorter than COMMAND_MAX_DATA, for which the server has a rule that the nul tests pass and that
-- permits the client, over channels that take every token, the session being open in protocol
-- version two and the server's client in version two or above with the callbacks of server-v2.c:
-- the client's session sends it as tokens; the server, once they have come in, runs the rule's
-- program, with the arguments that create_argv_command makes, and answers with tokens, if the
-- process is started, has no errors, writes pieces of at most TOKEN_MAX_DATA - 7 octets, and exits
-- with a status below 128; and from these the client collects all that the process wrote on each
-- stream, in order, and its exit status.
pub command-IsAnswered :
    (permit : Rule → M Bool) (path_sudo : Bytes) (inputs : Process → Inputs) (config : List Rule)
    (arg : Bytes) (args : List Bytes) (rule : Rule) (pid stdinout_fd stderr_fd n : ℕ) (c : Client)
    (r : Remctl) (fd : ℕ) (behind rest : List Received)
    → IsAccepted (arg ∷ args)
    → IsGranted (host_of permit path_sudo inputs) config arg args rule (resumed c behind)
    → IsStarted (inputs (process_of path_sudo arg args rule)).started pid stdinout_fd stderr_fd
    → All IsQuiet (inputs (process_of path_sudo arg args rule)).events
    → All (λ events. All IsQuiet events) (inputs (process_of path_sudo arg args rule)).rounds
    → reaped_status (exited 0) (all_events (inputs (process_of path_sudo arg args rule))) ≡ exited n
    → n < 128
    → 1 < c.protocol
    → c.callbacks ≡ v2
    → c.channel.outcomes ≡ []
    → r.fd ≡ some fd
    → r.protocol ≡ 2
    → IsReliable r.world.channel
    → IsAnswered permit path_sudo inputs config arg args rule n c r fd behind rest
command-IsAnswered permit path_sudo inputs config arg args rule pid stdinout_fd stderr_fd n c r fd
      behind rest accepted granted started now quiet exits small new by_v2 reliable is_open two
      sends =
    let host = host_of permit path_sudo inputs in
    let process = process_of path_sudo arg args rule in
    let (first, later, sent, handled) =
      command_delivered (run_command host config) (arg ∷ args) accepted r.world.channel c behind
        sends in
    let (answers, last, executed, world, collects) =
      execute-collect_sent permit path_sudo inputs config process pid stdinout_fd stderr_fd n
        (resumed c behind) (has_sent r (first ∷ later)) fd rest started now quiet exits small new
        by_v2 reliable in
    (
      first,
      later,
      answers,
      last,
      remctl_command-sent r fd arg args (first ∷ later) is_open (ground arith) sent,
      handled
          ∙ bind_done (run_command host config (arg ∷ args)) _ (resumed c behind)
              (run_command-execute host config arg args rule (resumed c behind) granted ∙ executed)
          ∙ not_fatal-done (told_all (resumed c behind) (answers ++ last ∷ [])),
      (world, collects),
    )
