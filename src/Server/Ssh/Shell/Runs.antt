-- ===== src/Server/Ssh/Shell/Runs.antt =====
-- What the program remctl-shell (server/remctl-shell.c) runs for command lines that are quoted and a
-- configuration that is printed.
use remctl.Base.{ℕ, suc, ◌≡◌, refl, ◌∙◌, Option, none, some, List, [], ◌∷◌, All, Bytes}
use remctl.Util.Vector.{vector_join}
use remctl.Server.Rule.{Rule}
use remctl.Server.Config.Load.{Files, Load, Config, loaded, failed, spent, server_config_load}
use remctl.Server.Config.Load.Printed.{IsPlainWord, IsRowOrEmpty, print, split_row}
use remctl.Server.Config.Load.Printed.{parse_rows}
use remctl.Server.Config.Load.Rows.{rules_of, server_config_load-print}
use remctl.Server.Ssh.Quoted.{quote_args, server_ssh_parse_command-quote_args}
use remctl.Server.Ssh.Shell.{
  Environment, ShellClient, Shell, runs, shell_main, server_ssh_new_client, with_config,
}

-- The client of a user from an address.
abbrev pub client_of : Environment → Bytes → Bytes → ShellClient
client_of env address user = record {
  ipaddress = address;
  hostname = env.hostname_of address;
  protocol = 3;
  user = user;
}

server_ssh_new_client-address :
    (env : Environment) (user address : Bytes) (fields : List Bytes) (next : ShellClient → Shell)
    → env.ssh_connection ≡ some (vector_join (address ∷ fields) (b' ' ∷ []))
    → All IsPlainWord (address ∷ fields)
    → server_ssh_new_client env (some user) next ≡ next (client_of env address user)
unfolding server_ssh_new_client
server_ssh_new_client-address env user address fields next e h =
    rw (e, split_row (address ∷ fields) h) refl

server_ssh_new_client-environment :
    (env : Environment) (user : Bytes) (next : ShellClient → Shell)
    → env.remctl_user ≡ some user
    → server_ssh_new_client env none next ≡ server_ssh_new_client env (some user) next
unfolding server_ssh_new_client
server_ssh_new_client-environment env user next e = rw e refl

rules_loaded :
    (load : Load) (rules : List Rule)
    → rules_of load ≡ some rules
    → (config : Config) × (load ≡ loaded config) × (config.rules ≡ rules)
unfolding rules_of
rules_loaded (loaded config) rules e = (config, refl, cc e)
rules_loaded failed rules e = absurd (cc e)
rules_loaded spent rules e = absurd (cc e)

with_config-quote_args :
    (env : Environment) (user : Option Bytes) (load : Load) (rules : List Rule) (c : ShellClient)
    (args : List Bytes)
    → rules_of load ≡ some rules
    → ((next : ShellClient → Shell) → server_ssh_new_client env user next ≡ next c)
    → with_config env user (quote_args args) load ≡ runs c rules args
unfolding with_config
with_config-quote_args env user load rules c args e h =
    let (config, is_loaded, same_rules) = rules_loaded load rules e in
    rw (is_loaded, h, server_ssh_parse_command-quote_args args, same_rules) refl

-- The configuration file is one of rows, each of at least four plain words on a line of its own
-- that is no comment, or an empty line, which are parsed to rules, and the variable SSH_CONNECTION
-- has plain words, of which the first is the address. Then remctl-shell comes to run a command line
-- that quotes a list of arguments, and runs exactly these arguments under exactly these rules for a
-- client at this address: where the line is given by -c and no word is behind the options, as the
-- user of REMCTL_USER; and where it is in SSH_ORIGINAL_COMMAND and one word is behind the options,
-- as the user that this word names, whatever REMCTL_USER is.
pub shell_main-runs :
    (env : Environment) (files : Files) (fuel : ℕ) (config_file user other address : Bytes)
    (fields args : List Bytes) (rows : List (List Bytes)) (rules : List Rule)
    → files.content config_file ≡ some (print rows)
    → All IsRowOrEmpty rows
    → parse_rows files.users config_file 0 rows ≡ some rules
    → env.ssh_connection ≡ some (vector_join (address ∷ fields) (b' ' ∷ []))
    → All IsPlainWord (address ∷ fields)
    → env.remctl_user ≡ some user
    → env.ssh_original_command ≡ some (quote_args args)
    → (shell_main env files (suc fuel) config_file ((b'c', quote_args args) ∷ []) []
        ≡ runs (client_of env address user) rules args)
      × (shell_main env files (suc fuel) config_file [] (other ∷ [])
          ≡ runs (client_of env address other) rules args)
unfolding shell_main
shell_main-runs env files fuel config_file user other address fields args rows rules content is_rows
      parsed connection plain has_user has_command =
    let load = server_config_load files (suc fuel) config_file in
    let has_rules : rules_of load ≡ some rules =
      server_config_load-print files fuel config_file rows content is_rows ∙ parsed in
    (
      with_config-quote_args env none load rules (client_of env address user) args has_rules
          (λ next.
            server_ssh_new_client-environment env user next has_user
            ∙ server_ssh_new_client-address env user address fields next connection plain),
      rw has_command (
          with_config-quote_args env (some other) load rules (client_of env address other) args
            has_rules
            (λ next. server_ssh_new_client-address env other address fields next connection plain)),
    )
