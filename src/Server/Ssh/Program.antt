-- ===== src/Server/Ssh/Program.antt =====
-- `main` of server/remctl-shell.c as a whole: its start (Server/Ssh/Shell), and server_run_command
-- with the callbacks of server/server-ssh.c. What it returns is the exit status of the program.
use remctl.Base.{ℕ, suc, ◌≡◌, refl, ap, ◌∙◌, Bool, false, some, List, [], ◌∷◌, All, Bytes, arith}
use remctl.Base.Int.{ℤ, pos}
use remctl.Util.Vector.{vector_join}
use remctl.Server.Rule.{Rule}
use remctl.Server.Session.{ssh, Client, Run, M, done}
use remctl.Server.Config.Load.{Files}
use remctl.Server.Config.Load.Printed.{IsPlainWord, IsRowOrEmpty, print, parse_rows}
use remctl.Server.Commands.Process.{exited, Process, Host}
use remctl.Server.Commands.Dispatch.{run_command}
use remctl.Server.Commands.Granted.{IsGranted, process_of, run_command-execute}
use remctl.Server.Process.{Inputs}
use remctl.Server.Process.Delivered.{IsQuiet, pieces, reaped_status}
use remctl.Server.Process.Played.{IsStarted, all_events}
use remctl.Server.Process.Hosted.{host_of}
use remctl.Server.Ssh.Output.{on_stream, execute-shows}
use remctl.Server.Ssh.Quoted.{quote_args}
use remctl.Server.Ssh.Shell.{
  Environment, ShellClient, Shell, exits, dies, overread, out_of_fuel, runs, shell_main,
}
use remctl.Server.Ssh.Shell.Runs.{client_of, shell_main-runs}

-- The client structure that server_run_command gets; what is not set is zero. `writes` are what the
-- writes to the descriptors come to.
abbrev pub client_struct : List Bool → ShellClient → Client
client_struct writes c = record {
  protocol = c.protocol;
  user = c.user;
  anonymous = false;
  keepalive = false;
  fatal = false;
  channel = record { sent = []; outcomes = []; incoming = [] };
  callbacks = ssh;
  terminal = record { stdout = []; stderr = []; writes = writes };
}

-- The program ends before a command is run, or with what server_run_command returns.
pub data Outcome : Type 0 where
  not_run : Shell → Outcome
  returns : Run ℤ → Outcome

unfoldable pub run_shell : Host → List Bool → Shell → Outcome
unfolding run_command
run_shell host writes (runs c rules args) =
    returns (run_command host rules args (client_struct writes c))
run_shell host writes (exits status) = not_run (exits status)
run_shell host writes (dies death) = not_run (dies death)
run_shell host writes overread = not_run overread
run_shell host writes out_of_fuel = not_run out_of_fuel

unfoldable pub main :
    Environment → Files → ℕ → Bytes → Host → List Bool → List (ℕ × Bytes) → List Bytes → Outcome
unfolding run_shell shell_main
main env files fuel config_file host writes options words =
    run_shell host writes (shell_main env files fuel config_file options words)

-- The client once the process is done.
abbrev pub shown : Environment → Bytes → Bytes → List (ℕ × Bytes) → Client
shown env address user items = record (client_struct [] (client_of env address user)) {
  terminal = record { stdout = on_stream 1 items; stderr = on_stream 2 items; writes = [] };
}

run_shell-shown :
    (permit : Rule → M Bool) (path_sudo : Bytes) (inputs : Process → Inputs) (rules : List Rule)
    (arg : Bytes) (args : List Bytes) (rule : Rule) (pid stdinout_fd stderr_fd n : ℕ)
    (env : Environment) (address user : Bytes)
    → IsGranted
        (host_of permit path_sudo inputs)
        rules
        arg
        args
        rule
        (client_struct [] (client_of env address user))
    → IsStarted (inputs (process_of path_sudo arg args rule)).started pid stdinout_fd stderr_fd
    → All IsQuiet (inputs (process_of path_sudo arg args rule)).events
    → All (λ events. All IsQuiet events) (inputs (process_of path_sudo arg args rule)).rounds
    → reaped_status (exited 0) (all_events (inputs (process_of path_sudo arg args rule))) ≡ exited n
    → run_shell
        (host_of permit path_sudo inputs)
        []
        (runs (client_of env address user) rules (arg ∷ args))
      ≡ returns (
          done (pos n) (
            shown env address user
              (pieces (all_events (inputs (process_of path_sudo arg args rule))))))
unfolding run_shell
run_shell-shown permit path_sudo inputs rules arg args rule pid stdinout_fd stderr_fd n env address
      user granted started now quiet exited_n =
    let c = client_struct [] (client_of env address user) in
    ap returns (
      run_command-execute (host_of permit path_sudo inputs) rules arg args rule c granted
      ∙ execute-shows permit path_sudo inputs rules (process_of path_sudo arg args rule) pid
          stdinout_fd stderr_fd n c started now quiet exited_n (omega arith) (refl, refl))

-- The configuration file is one of rows, each of at least four plain words on a line of its own
-- that is no comment, or an empty line, which are parsed to rules; SSH_CONNECTION has plain words,
-- of which the first is the address; and the rules have one for a command of one or more arguments
-- that the nul tests pass and that permits the user. Where remctl-shell comes to run a command line
-- that quotes these arguments, given by -c for the user of REMCTL_USER, or by SSH_ORIGINAL_COMMAND
-- for the user that the one word behind the options names, it runs the rule's program, with the
-- arguments that create_argv_command makes; and if the process is started, has no errors, writes
-- pieces of at most TOKEN_MAX_DATA - 7 octets, and exits, and the descriptors take every write, all
-- that the process wrote on each stream comes out on that stream of remctl-shell, in order, which
-- ends with the exit status of the process.
pub main-shown :
    (permit : Rule → M Bool) (path_sudo : Bytes) (inputs : Process → Inputs) (rules : List Rule)
    (arg : Bytes) (args : List Bytes) (rule : Rule) (pid stdinout_fd stderr_fd n : ℕ)
    (env : Environment) (address user : Bytes) (files : Files) (fuel : ℕ) (config_file : Bytes)
    (fields : List Bytes) (rows : List (List Bytes))
    → files.content config_file ≡ some (print rows)
    → All IsRowOrEmpty rows
    → parse_rows files.users config_file 0 rows ≡ some rules
    → env.ssh_connection ≡ some (vector_join (address ∷ fields) (b' ' ∷ []))
    → All IsPlainWord (address ∷ fields)
    → env.remctl_user ≡ some user
    → env.ssh_original_command ≡ some (quote_args (arg ∷ args))
    → IsGranted
        (host_of permit path_sudo inputs)
        rules
        arg
        args
        rule
        (client_struct [] (client_of env address user))
    → IsStarted (inputs (process_of path_sudo arg args rule)).started pid stdinout_fd stderr_fd
    → All IsQuiet (inputs (process_of path_sudo arg args rule)).events
    → All (λ events. All IsQuiet events) (inputs (process_of path_sudo arg args rule)).rounds
    → reaped_status (exited 0) (all_events (inputs (process_of path_sudo arg args rule))) ≡ exited n
    → (main env files
          (suc fuel)
          config_file
          (host_of permit path_sudo inputs)
          []
          ((b'c', quote_args (arg ∷ args)) ∷ [])
          []
        ≡ returns (
            done (pos n) (
              shown env address user
                (pieces (all_events (inputs (process_of path_sudo arg args rule)))))))
      × (main env files (suc fuel) config_file (host_of permit path_sudo inputs) [] [] (user ∷ [])
          ≡ returns (
              done (pos n) (
                shown env address user
                  (pieces (all_events (inputs (process_of path_sudo arg args rule)))))))
unfolding main
main-shown permit path_sudo inputs rules arg args rule pid stdinout_fd stderr_fd n env address user
      files fuel config_file fields rows content is_rows parsed connection plain has_user
      has_command granted started now quiet exited_n =
    let (by_option, by_word) =
      shell_main-runs env files fuel config_file user user address fields (arg ∷ args) rows rules
        content is_rows parsed connection plain has_user has_command in
    let ends =
      run_shell-shown permit path_sudo inputs rules arg args rule pid stdinout_fd stderr_fd n env
        address user granted started now quiet exited_n in
    (
      ap (run_shell (host_of permit path_sudo inputs) []) by_option ∙ ends,
      ap (run_shell (host_of permit path_sudo inputs) []) by_word ∙ ends,
    )
