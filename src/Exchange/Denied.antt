-- ===== src/Exchange/Denied.antt =====
-- A command whose rule does not permit the user: the access check of server/config.c between the
-- client (client/api.c) and the server (server/server-v2.c, server/commands.c).
use remctl.Base.{
  ap, ℕ, suc, ◌≡◌, refl, ◌∙◌, Bool, true, false, not, Option, none, some, List, [], ◌∷◌, length,
  Bytes, codes, arith,
}
use remctl.Protocol.{ErrorCode, error_number, access}
use remctl.Channel.{Received, token}
use remctl.Server.Rule.{Rule}
use remctl.Server.Session.{v2, Client, spent, M, done, pure, raise, bind_done, ◌>>=◌}
use remctl.Server.Acl.{System}
use remctl.Server.Acl.Check.{server_config_acl_permit}
use remctl.Server.Callbacks
use remctl.Server.Commands.Argv.{xstrndup}
use remctl.Server.Commands.Match.{find_config_line}
use remctl.Server.Commands.Nuls.{word_has_nul, arg_has_nul}
use remctl.Server.Commands.Process.{Process, Finished, Host}
use remctl.Server.Commands.Dispatch.{
  second, not_run, authorize, execute_permitted, check_args, lookup, run_command,
}
use remctl.Server.V2.Collect.{resumed}
use remctl.Server.V2.Handle.{handle_token}
use remctl.Server.V2.Messages.{send_error}
use remctl.Client.V2.Output.{error, read_result}
use remctl.Client.V2.Reliable.{IsReliable}
use remctl.Client.Session.{World, Remctl}
use remctl.Client.Api.{remctl_command, remctl_close}
use remctl.Client.Simple.{
  server, empty_result, append_message, internal_output_append, after_append, handle_slot, collect,
  collect_sent,
}
use remctl.Client.Simple.Collected.{reading, seen, remctl_output-read_result}
use remctl.Delivery.{IsAccepted, arriving, command_delivered}
use remctl.Reply.{told, send_error-read_result}
use remctl.Exchange.{has_sent, remctl_command-sent, not_fatal-done}

-- The access check of a rule, on fuel.
unfoldable pub permit_answer : Option Bool → M Bool
permit_answer none = raise spent
permit_answer (some permitted) = pure permitted

unfoldable pub permit_of : System → ℕ → Rule → M Bool
unfolding permit_answer
permit_of system fuel rule c = permit_answer (server_config_acl_permit system c fuel rule) c

-- A host with this access check, which runs processes in any way.
abbrev pub checking_host : System → ℕ → (Process → M Finished) → Bytes → Host
checking_host system fuel process_run path_sudo = record {
  permit = permit_of system fuel;
  process_run = process_run;
  path_sudo = path_sudo;
}

-- The rule that a request gets passes the nul tests, and its ACLs do not permit the client.
pub record IsDenied (system : System) (fuel : ℕ) (config : List Rule) (arg : Bytes)
    (args : List Bytes) (rule : Rule) (c : Client) : Type 0 where
  pub no_nul : word_has_nul (arg ∷ args) ≡ false
  pub found : find_config_line config (some (xstrndup arg)) (second (arg ∷ args)) ≡ some rule
  pub clean : arg_has_nul (some rule) false 1 args ≡ false
  pub denied : server_config_acl_permit system c fuel rule ≡ some false

abbrev pub access_denied : Bytes
access_denied = codes "Access denied"

permit_of-denied :
    (system : System) (fuel : ℕ) (rule : Rule) (c : Client)
    → server_config_acl_permit system c fuel rule ≡ some false
    → permit_of system fuel rule c ≡ done false c
unfolding permit_of
permit_of-denied system fuel rule c e = rw e refl

error-v2 :
    (code : ErrorCode) (message : Bytes) (c : Client)
    → c.callbacks ≡ v2
    → Callbacks.error code message c ≡ send_error code message c
unfolding Callbacks.error ◌>>=◌
error-v2 code message c e = ap (λ h. Callbacks.error_by h code message c) e

run_command-denied :
    (system : System) (fuel : ℕ) (process_run : Process → M Finished) (path_sudo : Bytes)
    (config : List Rule) (arg : Bytes) (args : List Bytes) (rule : Rule) (c d : Client)
    → IsDenied system fuel config arg args rule c
    → c.callbacks ≡ v2
    → send_error access access_denied c ≡ done true d
    → run_command (checking_host system fuel process_run path_sudo) config (arg ∷ args) c
      ≡ done not_run d
unfolding run_command lookup check_args authorize execute_permitted
run_command-denied system fuel process_run path_sudo config arg args rule c d h by_v2 sends =
    rw (h.no_nul, h.found, h.clean)
      (bind_done (permit_of system fuel rule) _ c (permit_of-denied system fuel rule c h.denied)
        ∙ bind_done (Callbacks.error access access_denied) _ c
            (error-v2 access access_denied c by_v2 ∙ sends))

collect_error :
    (fuel fd : ℕ) (r : Remctl) (tok : Bytes) (rest : List Received) (code : ℕ) (message : Bytes)
    → read_result tok ≡ some (error code message)
    → collect (suc fuel) (reading r fd (token tok ∷ rest)) empty_result
      ≡ some (
        record empty_result { error = some (server message) },
        remctl_close (seen r fd (error code message) rest),
      )
unfolding collect handle_slot internal_output_append after_append append_message
collect_error fuel fd r tok rest code message e =
    rw (remctl_output-read_result r fd tok rest e) refl

-- The client's session sends the command; the server, once the tokens have come in, and others
-- behind them, answers with one error; and from it, and others behind it, the client collects the
-- message and no output.
abbrev pub IsRefused :
    Host
    → List Rule
    → Bytes
    → List Bytes
    → Client
    → Remctl
    → ℕ
    → List Received
    → List Received
    → Type 0
IsRefused host config arg args c r fd behind rest =
    (first : Bytes) × (later : List Bytes) × (tok : Bytes) × (remctl_command r (arg ∷ args)
      ≡ (true, has_sent r (first ∷ later)))
    × (handle_token (run_command host config) first (arriving c later behind)
        ≡ done (not c.fatal) (told (resumed c behind) tok))
    × ((world : World) × (collect_sent
            (true, reading (has_sent r (first ∷ later)) fd (token tok ∷ rest))
          ≡ some (record empty_result { error = some (server access_denied) }, world)))

-- A command of 1 to COMMAND_MAX_ARGS arguments, each shorter than 2^32 octets, whose payload is
-- shorter than COMMAND_MAX_DATA, for which the server has a rule that the nul tests pass and whose
-- ACLs do not permit the client, over channels that take every token, the session being open in
-- protocol version two and the server's client having the callbacks of server-v2.c: however the
-- server runs processes, it runs none, but answers with one token, and the client's result has the
-- message Access denied, no output and the status 0.
pub command-IsRefused :
    (system : System) (fuel : ℕ) (process_run : Process → M Finished) (path_sudo : Bytes)
    (config : List Rule) (arg : Bytes) (args : List Bytes) (rule : Rule) (c : Client) (r : Remctl)
    (fd : ℕ) (behind rest : List Received)
    → IsAccepted (arg ∷ args)
    → IsDenied system fuel config arg args rule (resumed c behind)
    → c.callbacks ≡ v2
    → c.channel.outcomes ≡ []
    → r.fd ≡ some fd
    → r.protocol ≡ 2
    → IsReliable r.world.channel
    → IsRefused (checking_host system fuel process_run path_sudo) config arg args c r fd behind rest
unfolding collect_sent
command-IsRefused system fuel process_run path_sudo config arg args rule c r fd behind rest accepted
      denied by_v2 reliable is_open two sends =
    let host = checking_host system fuel process_run path_sudo in
    let (first, later, sent, handled) =
      command_delivered (run_command host config) (arg ∷ args) accepted r.world.channel c behind
        sends in
    let (tok, told_error, reads) =
      send_error-read_result access access_denied (resumed c behind) (omega arith) reliable in
    (
      first,
      later,
      tok,
      remctl_command-sent r fd arg args (first ∷ later) is_open (ground arith) sent,
      handled
          ∙ bind_done (run_command host config (arg ∷ args)) _ (resumed c behind) (
              run_command-denied system fuel process_run path_sudo config arg args rule
                (resumed c behind) (told (resumed c behind) tok) denied by_v2 told_error)
          ∙ not_fatal-done (told (resumed c behind) tok),
      (
        _,
        collect_error (length (token tok ∷ rest)) fd (has_sent r (first ∷ later)) tok rest
            (error_number access) access_denied reads,
      ),
    )
