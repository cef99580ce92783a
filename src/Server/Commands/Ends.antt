-- ===== src/Server/Commands/Ends.antt =====
-- The running of a command ends and reads nothing, over a host that does so.
use remctl.Base.{
  All, inl, inr, Bool-cases, ◌≡◌, ◌⊎◌, ◌≤◌, Bool, true, false, Option, none, some, List, [], ◌∷◌,
  Bytes, codes,
}
use remctl.Protocol.{unknown_command}
use remctl.Server.Rule.{Rule}
use remctl.Server.Session.{Client, done, fault, died, overread}
use remctl.Server.Frugal.{Frugal, Frugal-bind, Frugal-pure, Frugal-if, to_come, frugal_rules}
use remctl.Server.Frugal.Messages.{Frugal-error, Frugal-finish}
use remctl.Server.Commands.Argv.{xstrndup}
use remctl.Server.Commands.Nuls.{word_has_nul}
use remctl.Server.Commands.Match.{line_matches, find_config_line}
use remctl.Server.Commands.Process.{Process, Host}
use remctl.Server.Commands.Summary.{
  Summary, summarize_rule, summarize_summary, summarize_permitted, summarize, summarize_all,
  answer_summary, send_summary, nothing_run, summary_status,
}
use remctl.Server.Commands.Dispatch.{
  Request, second, third, first_request, help_request, execute, execute_command, execute_help,
  execute_permitted, authorize, check_args, find_help, check_help, lookup, run_command,
}
use remctl.Server.V2.Handle.{handle_messages}
use remctl.Server.V2.Serve.{handle_messages_ends}

-- The access checks of the rules and the process loop come to an end and read no token of the
-- client's.
pub record IsFrugal (host : Host) (config : List Rule) : Type 0 where
  pub permits : All (λ rule. Frugal (host.permit rule)) config
  pub runs : (process : Process) → Frugal (host.process_run process)

-- The access check of a rule that was found does so.
abbrev Checks : Host → Option Rule → Type 0
Checks host none = Unit
Checks host (some rule) = Frugal (host.permit rule)

find_config_line-Checks :
    (host : Host) (rules : List Rule) (command subcommand : Option Bytes)
    → All (λ rule. Frugal (host.permit rule)) rules
    → Checks host (find_config_line rules command subcommand)
unfolding find_config_line
find_config_line-Checks host [] command subcommand h = tt
find_config_line-Checks host (rule ∷ rules) command subcommand (first, h) =
    elim (Bool-cases (line_matches rule command subcommand)) [
      | inl e ↦ rw e first
      | inr e ↦ rw e (find_config_line-Checks host rules command subcommand h)
    ]

Frugal-answer_summary : (host : Host) (s : Summary) → Frugal (answer_summary host s)
unfolding answer_summary
Frugal-answer_summary host s =
    Frugal-if s.ok_any (Frugal-finish s.output (summary_status s))
      (Frugal-error unknown_command (codes "Unknown command"))

module _ (host : Host) (config : List Rule) (frugal : IsFrugal host config) where
  Frugal-summarize_rule :
      (rule : Rule) (summary : Bytes) (s : Summary) → Frugal (summarize_rule host rule summary s)
  unfolding summarize_rule
  Frugal-summarize_rule rule summary s = search (frugal_rules, frugal.runs)

  Frugal-summarize_summary :
      (rule : Rule) (s : Summary) (summary : Option Bytes)
      → Frugal (summarize_summary host rule s summary)
  unfolding summarize_summary
  Frugal-summarize_summary rule s none = search frugal_rules
  Frugal-summarize_summary rule s (some summary) = Frugal-summarize_rule rule summary s

  Frugal-summarize_permitted :
      (permitted : Bool) (rule : Rule) (s : Summary)
      → Frugal (summarize_permitted host permitted rule s)
  unfolding summarize_permitted
  Frugal-summarize_permitted false rule s = search frugal_rules
  Frugal-summarize_permitted true rule s = Frugal-summarize_summary rule s rule.summary

  Frugal-summarize_all :
      (rules : List Rule) (s : Summary)
      → All (λ rule. Frugal (host.permit rule)) rules
      → Frugal (summarize_all host rules s)
  unfolding summarize_all summarize
  Frugal-summarize_all [] s h = Frugal-pure s
  Frugal-summarize_all (rule ∷ rules) s (first, h) =
      Frugal-bind (Frugal-bind first (λ permitted. Frugal-summarize_permitted permitted rule s))
        (λ s'. Frugal-summarize_all rules s' h)

  Frugal-send_summary : Frugal (send_summary host config)
  unfolding send_summary
  Frugal-send_summary =
      Frugal-bind (Frugal-summarize_all config nothing_run frugal.permits)
        (Frugal-answer_summary host)

  Frugal-execute : (process : Process) → Frugal (execute host config process)
  unfolding execute
  Frugal-execute process = search (frugal_rules, frugal.runs, Frugal-finish)

  Frugal-execute_help :
      (request : Request) (rule : Rule) (help : Option Bytes)
      → Frugal (execute_help host config request rule help)
  unfolding execute_help
  Frugal-execute_help request rule none = search (frugal_rules, Frugal-error)
  Frugal-execute_help request rule (some help) = Frugal-execute _

  Frugal-execute_permitted :
      (request : Request) (rule : Rule) (permitted : Bool)
      → Frugal (execute_permitted host config request rule permitted)
  unfolding execute_permitted execute_command
  Frugal-execute_permitted request rule false = search (frugal_rules, Frugal-error)
  Frugal-execute_permitted request rule true =
      Frugal-if request.help (Frugal-execute_help request rule rule.help) (Frugal-execute _)

  Frugal-authorize :
      (request : Request) (rule : Option Rule)
      → Checks host rule
      → Frugal (authorize host config request rule)
  unfolding authorize
  Frugal-authorize request none h = search (frugal_rules, Frugal-error)
  Frugal-authorize request (some rule) h = Frugal-bind h (Frugal-execute_permitted request rule)

  Frugal-check_args :
      (request : Request) (args : List Bytes)
      → Checks host request.rule
      → Frugal (check_args host config request args)
  unfolding check_args
  Frugal-check_args request args h = search (frugal_rules, Frugal-error, Frugal-authorize)

  Frugal-find_help :
      (request : Request) (args : List Bytes) (subcommand : Option Bytes)
      → Frugal (find_help host config request args subcommand)
  unfolding find_help
  Frugal-find_help request args none = search (frugal_rules, Frugal-send_summary)
  Frugal-find_help request args (some subcommand) =
      Frugal-check_args (help_request config request subcommand) args
        (find_config_line-Checks host config (some subcommand) (third request.argv) frugal.permits)

  Frugal-check_help :
      (request : Request) (args : List Bytes) → Frugal (check_help host config request args)
  unfolding check_help
  Frugal-check_help request args = search (frugal_rules, Frugal-error, Frugal-find_help)

  Frugal-lookup :
      (request : Request) (args : List Bytes) (rule : Option Rule)
      → Checks host request.rule
      → Frugal (lookup host config request args rule)
  unfolding lookup
  Frugal-lookup request args (some rule) h = Frugal-check_args request args h
  Frugal-lookup request args none h = search (frugal_rules, Frugal-check_help, Frugal-check_args)

  Frugal-run_command : (argv : List Bytes) → Frugal (run_command host config argv)
  unfolding run_command
  Frugal-run_command [] = search (frugal_rules, Frugal-error)
  Frugal-run_command (arg ∷ args) =
      Frugal-if (word_has_nul (arg ∷ args)) (search (frugal_rules, Frugal-error)) (
        Frugal-lookup (first_request config arg args) args _ (
          find_config_line-Checks host config (some (xstrndup arg)) (second (arg ∷ args))
            frugal.permits))

  -- The message loop of protocol version two, over the running of commands, comes to an end.
  pub handle_messages-run_command :
      (c : Client)
      → (handle_messages (run_command host config) c ≡ fault died)
        ⊎ (handle_messages (run_command host config) c ≡ fault overread)
        ⊎ (d : Client) × (handle_messages (run_command host config) c ≡ done tt d)
          × (to_come d ≤ to_come c)
  handle_messages-run_command c =
      handle_messages_ends (run_command host config) Frugal-run_command c
