-- ===== src/Server/Commands/Access.antt =====
-- The access check stands before every process.
use remctl.Base.{
  ◌≡◌, refl, Bool, true, false, Bool-cases, inl, inr, Option, none, some, List, [], ◌∷◌, length,
  Bytes, same, leb, codes,
}
use remctl.Server.Rule.{Rule}
use remctl.Server.Session.{M, pure, ◌>>=◌}
use remctl.Server.Commands.Process.{Process, Finished, Host}
use remctl.Server.Commands.Summary.{
  Summary, nothing_run, create_argv_summary, summarize_rule, summarize_summary, summarize_permitted,
  summarize, summarize_all, answer_summary, send_summary,
}
use remctl.Server.Commands.Dispatch.{
  Request, first_request, help_request, execute, execute_command, execute_help, execute_permitted,
  authorize, check_args, find_help, check_help, lookup, run_command,
}
use remctl.Server.Commands.Nuls.{arg_has_nul, word_has_nul}

-- Two hosts that check access alike, and may differ in what they do with the processes of rules
-- that the check does not permit.
module _ (allowed : Rule → Bool) (path_sudo : Bytes) (run run' : Process → M Finished)
    (alike : (p : Process) → allowed p.rule ≡ true → run p ≡ run' p) where
  abbrev host : Host
  host = record { permit = λ rule. pure (allowed rule); process_run = run; path_sudo = path_sudo }

  abbrev host' : Host
  host' = record { permit = λ rule. pure (allowed rule); process_run = run'; path_sudo = path_sudo }

  module _ (config : List Rule) where
    execute-alike :
        (p : Process) → allowed p.rule ≡ true → execute host config p ≡ execute host' config p
    unfolding execute
    execute-alike p ok = rw (alike p ok)

    execute_help-alike :
        (request : Request) (rule : Rule) (help : Option Bytes)
        → allowed rule ≡ true
        → execute_help host config request rule help ≡ execute_help host' config request rule help
    unfolding execute_help
    execute_help-alike request rule none ok = refl
    execute_help-alike request rule (some help) ok = execute-alike _ ok

    execute_permitted-alike :
        (request : Request) (rule : Rule) (b : Bool)
        → allowed rule ≡ b
        → execute_permitted host config request rule b
          ≡ execute_permitted host' config request rule b
    unfolding execute_permitted
    execute_permitted-alike request rule false ok = refl
    execute_permitted-alike request rule true ok = elim (Bool-cases request.help) [
      | inl e ↦ rw e (execute_help-alike request rule rule.help ok)
      | inr e ↦ rw e (unfold execute_command in execute-alike _ ok)
    ]

    authorize-alike :
        (request : Request) (found : Option Rule)
        → authorize host config request found ≡ authorize host' config request found
    unfolding authorize ◌>>=◌
    authorize-alike request none = refl
    authorize-alike request (some rule) = execute_permitted-alike request rule (allowed rule) refl

    check_args-alike :
        (request : Request) (args : List Bytes)
        → check_args host config request args ≡ check_args host' config request args
    unfolding check_args
    check_args-alike request args =
        elim (Bool-cases (arg_has_nul request.rule request.help 1 args)) [
          | inl e ↦ rw e
          | inr e ↦ rw e (authorize-alike request request.rule)
        ]

  summarize_rule-alike :
      (rule : Rule) (summary : Bytes) (s : Summary)
      → allowed rule ≡ true
      → summarize_rule host rule summary s ≡ summarize_rule host' rule summary s
  unfolding summarize_rule
  summarize_rule-alike rule summary s ok =
      let p : Process = record {
        command = summary;
        argv = create_argv_summary rule summary;
        rule = rule;
        input = none;
      } in
      rw (alike p ok)

  summarize_summary-alike :
      (rule : Rule) (s : Summary) (o : Option Bytes)
      → allowed rule ≡ true
      → summarize_summary host rule s o ≡ summarize_summary host' rule s o
  unfolding summarize_summary
  summarize_summary-alike rule s none ok = refl
  summarize_summary-alike rule s (some summary) ok = summarize_rule-alike rule summary s ok

  summarize_permitted-alike :
      (b : Bool) (rule : Rule) (s : Summary)
      → allowed rule ≡ b
      → summarize_permitted host b rule s ≡ summarize_permitted host' b rule s
  unfolding summarize_permitted
  summarize_permitted-alike false rule s ok = refl
  summarize_permitted-alike true rule s ok = summarize_summary-alike rule s rule.summary ok

  summarize_all-alike :
      (rules : List Rule) (s : Summary) → summarize_all host rules s ≡ summarize_all host' rules s
  unfolding summarize_all summarize ◌>>=◌
  summarize_all-alike [] s = refl
  summarize_all-alike (rule ∷ rules) s = λ i.
      summarize_permitted-alike (allowed rule) rule s refl i >>= λ s'.
      summarize_all-alike rules s' i

  send_summary-alike : (config : List Rule) → send_summary host config ≡ send_summary host' config
  unfolding send_summary answer_summary
  send_summary-alike config = λ i. summarize_all-alike config nothing_run i >>= answer_summary host

  module _ (config : List Rule) where
    find_help-alike :
        (request : Request) (args : List Bytes) (o : Option Bytes)
        → find_help host config request args o ≡ find_help host' config request args o
    unfolding find_help
    find_help-alike request args none = rw (send_summary-alike config)
    find_help-alike request args (some subcommand) =
        check_args-alike config (help_request config request subcommand) args

    check_help-alike :
        (request : Request) (args : List Bytes)
        → check_help host config request args ≡ check_help host' config request args
    unfolding check_help
    check_help-alike request args = elim (Bool-cases (leb 4 (length request.argv))) [
      | inl e ↦ rw (e, find_help-alike request args request.subcommand)
      | inr e ↦ rw e (find_help-alike request args request.subcommand)
    ]

    lookup-alike :
        (request : Request) (args : List Bytes) (o : Option Rule)
        → lookup host config request args o ≡ lookup host' config request args o
    unfolding lookup
    lookup-alike request args (some rule) = check_args-alike config request args
    lookup-alike request args none = elim (Bool-cases (same request.command (codes "help"))) [
      | inl h ↦ rw h (check_help-alike request args)
      | inr h ↦ rw h (check_args-alike config request args)
    ]

    -- A process of a rule that the access check does not permit is never run: what such a process
    -- would do has no influence on a request, the summary of all commands and help included.
    pub run_command-alike :
        (argv : List Bytes) → run_command host config argv ≡ run_command host' config argv
    unfolding run_command
    run_command-alike [] = refl
    run_command-alike (arg ∷ args) = elim (Bool-cases (word_has_nul (arg ∷ args))) [
      | inl e ↦ rw e
      | inr e ↦
          rw e
            (lookup-alike (first_request config arg args) args (first_request config arg args).rule)
    ]
