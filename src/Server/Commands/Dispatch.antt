-- ===== src/Server/Commands/Dispatch.antt =====
-- `server_run_command` of server/commands.c. Logging is left out.
use remctl.Base.{
  Bool, true, false, Option, none, some, List, [], ◌∷◌, length, leb, same, if◌then◌else◌, Bytes,
  codes,
}
use remctl.Base.Int.{ℤ, negsuc}
use remctl.Protocol.{bad_command, unknown_command, access, toomany_args, no_help}
use remctl.Server.Rule.{Rule}
use remctl.Server.Session.{M, pure, ◌>>=◌, ◌>>◌}
use remctl.Server.Callbacks.{error, finish}
use remctl.Server.Commands.Argv.{xstrndup, create_argv_command, create_argv_help}
use remctl.Server.Commands.Match.{find_config_line}
use remctl.Server.Commands.Nuls.{word_has_nul, arg_has_nul}
use remctl.Server.Commands.Process.{exit_code, raw_status, Process, Host}
use remctl.Server.Commands.Summary.{send_summary}

-- What the function knows of a request, once it has looked for a rule.
pub record Request : Type 0 where
  pub command : Bytes
  pub subcommand : Option Bytes
  pub helpsubcommand : Option Bytes
  pub help : Bool
  pub rule : Option Rule
  pub argv : List Bytes

-- The value that is returned before a process was run.
abbrev pub not_run : ℤ
not_run = negsuc 0

abbrev pub second : List Bytes → Option Bytes
second (command ∷ subcommand ∷ rest) = some (xstrndup subcommand)
second short = none

abbrev pub third : List Bytes → Option Bytes
third (command ∷ subcommand ∷ helpsubcommand ∷ rest) = some (xstrndup helpsubcommand)
third short = none

-- The request behind the test for nuls in the command and the subcommand.
abbrev pub first_request : List Rule → Bytes → List Bytes → Request
first_request config arg args = record {
  command = xstrndup arg;
  subcommand = second (arg ∷ args);
  helpsubcommand = none;
  help = false;
  rule = find_config_line config (some (xstrndup arg)) (second (arg ∷ args));
  argv = arg ∷ args;
}

-- The request for the help of a command.
abbrev pub help_request : List Rule → Request → Bytes → Request
help_request config request subcommand = record request {
  helpsubcommand = third request.argv;
  help = true;
  rule = find_config_line config (some subcommand) (third request.argv);
}

module _ (host : Host) (config : List Rule) where
  open host use {permit, process_run, path_sudo}

  -- "Now actually execute the program."
  unfoldable pub execute : Process → M ℤ
  execute process = do
    run ← process_run process
    (if run.ok
        then finish run.output (exit_code run.status) >> pure (exit_code run.status)
        else pure (raw_status run.status))

  unfoldable pub execute_command : Request → Rule → M ℤ
  unfolding execute
  execute_command request rule =
      let spliced = create_argv_command path_sudo rule request.argv in
      execute (record {
        command = request.command;
        argv = spliced.args;
        rule = rule;
        input = spliced.input;
      })

  unfoldable pub execute_help : Request → Rule → Option Bytes → M ℤ
  unfolding execute
  execute_help request rule none =
      error no_help (codes "No help defined for command") >> pure not_run
  execute_help request rule (some help) = execute (record {
    command = request.command;
    argv = create_argv_help rule.program help request.helpsubcommand;
    rule = rule;
    input = none;
  })

  unfoldable pub execute_permitted : Request → Rule → Bool → M ℤ
  unfolding execute_help execute_command
  execute_permitted request rule false = error access (codes "Access denied") >> pure not_run
  execute_permitted request rule true =
      if request.help then execute_help request rule rule.help else execute_command request rule

  unfoldable pub authorize : Request → Option Rule → M ℤ
  unfolding execute_permitted
  authorize request none = error unknown_command (codes "Unknown command") >> pure not_run
  authorize request (some rule) = do
    permitted ← permit rule
    execute_permitted request rule permitted

  -- The nul test of all arguments, and what follows it.
  unfoldable pub check_args : Request → List Bytes → M ℤ
  unfolding authorize
  check_args request args =
      if arg_has_nul request.rule request.help 1 args
      then error bad_command (codes "Invalid command token") >> pure not_run
      else authorize request request.rule

  -- The command `help`, where no rule has it.
  unfoldable pub find_help : Request → List Bytes → Option Bytes → M ℤ
  unfolding check_args
  find_help request args none = send_summary host config >> pure not_run
  find_help request args (some subcommand) =
      check_args (help_request config request subcommand) args

  -- An error that does not end the request.
  unfoldable pub check_help : Request → List Bytes → M ℤ
  unfolding find_help
  check_help request args =
      if leb 4 (length request.argv)
      then error toomany_args (codes "Too many arguments for help command")
        >> find_help request args request.subcommand
      else find_help request args request.subcommand

  unfoldable pub lookup : Request → List Bytes → Option Rule → M ℤ
  unfolding check_help check_args
  lookup request args (some rule) = check_args request args
  lookup request args none =
      if same request.command (codes "help")
      then check_help request args
      else check_args request args

  unfoldable pub run_command : List Bytes → M ℤ
  unfolding lookup
  run_command [] = error bad_command (codes "Invalid command token") >> pure not_run
  run_command (arg ∷ args) =
      if word_has_nul (arg ∷ args)
      then error bad_command (codes "Invalid command token") >> pure not_run
      else (let request = first_request config arg args in lookup request args request.rule)
