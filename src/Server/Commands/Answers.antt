-- ===== src/Server/Commands/Answers.antt =====
-- Requests that are answered otherwise than the code's comments say.
use remctl.Base.{
  ℕ, suc, ◌≤◌, ◌≡◌, refl, ◌∙◌, ap, true, false, none, some, List, [], ◌∷◌, ◌++◌, length, le→leb,
  same, Bytes, codes, arith,
}
use remctl.Base.Int.{ℤ, pos}
use remctl.Protocol.{unknown_command, toomany_args}
use remctl.Server.Rule.{Rule}
use remctl.Server.Session.{M, Client, done, pure, bind_done, bind-eq-done, ◌>>=◌, ◌>>◌}
use remctl.Server.Callbacks.{error, finish}
use remctl.Server.Commands.Argv.{xstrndup}
use remctl.Server.Commands.Match.{find_config_line}
use remctl.Server.Commands.Nuls.{has_nul, word_has_nul, arg_has_nul}
use remctl.Server.Commands.Process.{exited, Host}
use remctl.Server.Commands.Summary.{
  Summary, nothing_run, summary_status, summarize_permitted, summarize, summarize_all,
  answer_summary, send_summary,
}
use remctl.Server.Commands.Dispatch.{
  Request, not_run, check_args, authorize, find_help, check_help, lookup, run_command,
}

-- The second argument of a request whose arguments hold no nul.
first_clean :
    (arg : Bytes) (args : List Bytes)
    → arg_has_nul none true 1 (arg ∷ args) ≡ false
    → has_nul arg ≡ false
unfolding arg_has_nul
first_clean arg args h = ground arith

help_clean :
    (sub : Bytes) (rest : List Bytes)
    → has_nul sub ≡ false
    → word_has_nul (codes "help" ∷ sub ∷ rest) ≡ false
unfolding word_has_nul
help_clean sub rest h = rw h

four_words : (n : ℕ) → 4 ≤ suc (suc (suc (suc n)))
four_words n = omega arith

module _ (host : Host) (config : List Rule) (sub helpsub arg : Bytes) (rest : List Bytes)
    (no_rule : find_config_line config (some (xstrndup sub)) (some (xstrndup helpsub)) ≡ none)
    (clean : arg_has_nul none true 1 (sub ∷ helpsub ∷ arg ∷ rest) ≡ false) where
  abbrev args : List Bytes
  args = sub ∷ helpsub ∷ arg ∷ rest

  abbrev asked : Request
  asked = record {
    command = codes "help";
    subcommand = some (xstrndup sub);
    helpsubcommand = none;
    help = false;
    rule = none;
    argv = codes "help" ∷ args;
  }

  find_help_unknown :
      (request : Request)
      → request.argv ≡ codes "help" ∷ args
      → find_help host config request args (some (xstrndup sub))
        ≡ (error unknown_command (codes "Unknown command") >> pure not_run)
  unfolding find_help check_args authorize
  find_help_unknown request e = rw (e, no_rule, clean) refl

  -- A request for help with more than two further arguments, for which the configuration has no rule
  -- of its own and none for the command that help is asked for, is answered by two errors.
  pub run_command_answers_twice :
      find_config_line config (some (codes "help")) (some (xstrndup sub)) ≡ none
      → run_command host config (codes "help" ∷ args) ≡ (
          error toomany_args (codes "Too many arguments for help command")
          >> (error unknown_command (codes "Unknown command") >> pure not_run))
  unfolding run_command lookup xstrndup check_help same
  run_command_answers_twice no_help =
      rw
        (
          help_clean sub (helpsub ∷ arg ∷ rest) (first_clean sub (helpsub ∷ arg ∷ rest) clean),
          no_help,
          le→leb 4 (suc (suc (suc (suc (length rest))))) (four_words (length rest)),
        )
        (ap (λ (z : M ℤ). error toomany_args (codes "Too many arguments for help command") >> z)
          (find_help_unknown asked refl))

module _ (host : Host) where
  summarize_all-append :
      (rules : List Rule) (rule : Rule) (s : Summary) (c : Client) (s' : Summary) (c' : Client)
      → summarize_all host rules s c ≡ done s' c'
      → summarize_all host (rules ++ rule ∷ []) s c ≡ (summarize host rule s' >>= pure) c'
  unfolding summarize_all
  summarize_all-append [] rule s c s' c' h = cc
  summarize_all-append (r ∷ rules) rule s c s' c' h =
      let (a, d, first, later) = bind-eq-done (summarize host r s) (summarize_all host rules) c h in
      bind_done (summarize host r s) (summarize_all host (rules ++ rule ∷ [])) c first
      ∙ summarize_all-append rules rule a d s' c' later

  -- A rule that is not permitted only clears the last status.
  abbrev hidden : Summary → Summary
  hidden s = record s { last_status = exited 0 }

  summarize_denied :
      (rule : Rule) (s : Summary) (c' : Client)
      → host.permit rule c' ≡ done false c'
      → (summarize host rule s >>= pure) c' ≡ done (hidden s) c'
  unfolding summarize summarize_permitted
  summarize_denied rule s c' denied =
      bind_done (summarize host rule s) pure c' {a = hidden s} {c' = c'} (
        bind_done (host.permit rule) (λ permitted. summarize_permitted host permitted rule s) c'
          {a = false} {c' = c'} denied)

  -- Where the last rule of the configuration is not permitted and no command was killed by a signal,
  -- the summary of all commands ends with the status 0, also if a command before it failed.
  pub send_summary_hides_failure :
      (rules : List Rule) (rule : Rule) (c : Client) (s : Summary) (c' : Client) (n : ℕ)
      → summarize_all host rules nothing_run c ≡ done s c'
      → host.permit rule c' ≡ done false c'
      → s.ok_any ≡ true
      → s.status_all ≡ exited n
      → send_summary host (rules ++ rule ∷ []) c ≡ finish s.output (pos 0) c'
  unfolding send_summary answer_summary summary_status
  send_summary_hides_failure rules rule c s c' n h denied any code =
      bind_done (summarize_all host (rules ++ rule ∷ []) nothing_run) (answer_summary host) c
        {a = hidden s} {c' = c'}
        (summarize_all-append rules rule nothing_run c s c' h ∙ summarize_denied rule s c' denied)
      ∙ rw (any, code) refl
