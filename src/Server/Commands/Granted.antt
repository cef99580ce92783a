-- ===== src/Server/Commands/Granted.antt =====
-- A request for which the server has a rule that permits it (server/commands.c).
use remctl.Base.{◌≡◌, true, false, some, List, ◌∷◌, Bytes}
use remctl.Server.Rule.{Rule}
use remctl.Server.Session.{Client, done, bind_done}
use remctl.Server.Commands.Argv.{xstrndup, create_argv_command}
use remctl.Server.Commands.Match.{find_config_line}
use remctl.Server.Commands.Nuls.{word_has_nul, arg_has_nul}
use remctl.Server.Commands.Process.{Process, Host}
use remctl.Server.Commands.Dispatch.{second, execute, authorize, check_args, lookup, run_command}

-- The rule that a request gets, which the nul tests pass and whose ACLs permit the client.
pub record IsGranted (host : Host) (config : List Rule) (arg : Bytes) (args : List Bytes)
    (rule : Rule) (c : Client) : Type 0 where
  pub no_nul : word_has_nul (arg ∷ args) ≡ false
  pub found : find_config_line config (some (xstrndup arg)) (second (arg ∷ args)) ≡ some rule
  pub clean : arg_has_nul (some rule) false 1 args ≡ false
  pub permitted : host.permit rule c ≡ done true c

-- The process that the command comes to.
abbrev pub process_of : Bytes → Bytes → List Bytes → Rule → Process
process_of path_sudo arg args rule = record {
  command = xstrndup arg;
  argv = (create_argv_command path_sudo rule (arg ∷ args)).args;
  rule = rule;
  input = (create_argv_command path_sudo rule (arg ∷ args)).input;
}

-- A request that is granted comes to the running of its process.
pub run_command-execute :
    (host : Host) (config : List Rule) (arg : Bytes) (args : List Bytes) (rule : Rule) (c : Client)
    → IsGranted host config arg args rule c
    → run_command host config (arg ∷ args) c
      ≡ execute host config (process_of host.path_sudo arg args rule) c
unfolding run_command lookup check_args authorize
run_command-execute host config arg args rule c granted =
    rw (granted.no_nul, granted.found, granted.clean)
      (bind_done (host.permit rule) _ c granted.permitted)
