-- ===== src/Server/Ssh/Shell.antt =====
-- `main` of server/remctl-shell.c up to its call of server_run_command, and `server_ssh_new_client`
-- of server/server-ssh.c. What `getopt` finds is an input, and so are the environment and what
-- `getaddrinfo` and `getnameinfo` find for an address. The options on logging change nothing here.
pub mod Runs
use remctl.Base.{ℕ, Bool, Option, none, some, List, [], ◌∷◌, ◌==◌, ◌||◌, if◌then◌else◌, Bytes}
use remctl.Util.Vector.{vector_split_space}
use remctl.Server.Rule.{Rule}
use remctl.Server.Config.Load.{Files, Load, loaded, failed, spent, server_config_load}
use remctl.Server.Ssh.{server_ssh_parse_command}

-- The variables of the environment that are read, and the name of the host at an address.
pub record Environment : Type 0 where
  pub remctl_user : Option Bytes
  pub ssh_connection : Option Bytes
  pub ssh_original_command : Option Bytes
  pub hostname_of : Bytes → Option Bytes

-- What `server_ssh_new_client` sets of `struct client`; the descriptors are standard output and
-- standard error, and the callbacks those of server-ssh.c.
pub record ShellClient : Type 0 where
  pub ipaddress : Bytes
  pub hostname : Option Bytes
  pub protocol : ℕ
  pub user : Bytes

-- The messages of `die`.
pub data Death : Type 0 where
  user_not_set connection_not_set command_not_set : Death
  cannot_read_configuration cannot_parse_command : Death

-- The end of the program before a command is run, or the arguments of server_run_command.
-- `strings[0]` of a vector without strings reads what is not there.
pub data Shell : Type 0 where
  exits : ℕ → Shell
  dies : Death → Shell
  overread : Shell
  out_of_fuel : Shell
  runs : ShellClient → List Rule → List Bytes → Shell

pub record Settings : Type 0 where
  pub command_string : Option Bytes
  pub config_path : Bytes

unfoldable pub parse_option : Settings → ℕ → Bytes → (Settings → Shell) → Shell
parse_option s option optarg next =
    if option == b'c'
    then next (record s { command_string = some optarg })
    else if option == b'f'
    then next (record s { config_path = optarg })
    else if option == b'd' || option == b'q' || option == b'S'
    then next s
    else if option == b'h' || option == b'v'
    then exits 0
    else exits 1

unfoldable pub parse_options : Settings → List (ℕ × Bytes) → (Settings → Shell) → Shell
unfolding parse_option
parse_options s [] next = next s
parse_options s ((option, optarg) ∷ options) next =
    parse_option s option optarg (λ s'. parse_options s' options next)

module _ (env : Environment) where
  unfoldable pub original_command : Bytes → Option Bytes → (Option Bytes → Bytes → Shell) → Shell
  original_command user none next = dies command_not_set
  original_command user (some command) next = next (some user) command

  -- The user, if the words give it, and the command string.
  unfoldable pub find_command : Option Bytes → List Bytes → (Option Bytes → Bytes → Shell) → Shell
  unfolding original_command
  find_command none (user ∷ []) next = original_command user env.ssh_original_command next
  find_command none words next = exits 1
  find_command (some command) [] next = next none command
  find_command (some command) words next = exits 1

  unfoldable pub user_or_environment : Option Bytes → Option Bytes
  user_or_environment none = env.remctl_user
  user_or_environment user = user

  unfoldable pub client_at : Bytes → List Bytes → (ShellClient → Shell) → Shell
  client_at user [] next = overread
  client_at user (address ∷ fields) next = next (record {
    ipaddress = address;
    hostname = env.hostname_of address;
    protocol = 3;
    user = user;
  })

  unfoldable pub connected : Bytes → Option Bytes → (ShellClient → Shell) → Shell
  unfolding client_at vector_split_space
  connected user none next = dies connection_not_set
  connected user (some ssh_client) next = client_at user (vector_split_space ssh_client) next

  unfoldable pub with_user : Option Bytes → (ShellClient → Shell) → Shell
  unfolding connected
  with_user none next = dies user_not_set
  with_user (some user) next = connected user env.ssh_connection next

  unfoldable pub server_ssh_new_client : Option Bytes → (ShellClient → Shell) → Shell
  unfolding with_user user_or_environment
  server_ssh_new_client user next = with_user (user_or_environment user) next

  unfoldable pub run_command_string : ShellClient → List Rule → Option (List Bytes) → Shell
  run_command_string c rules none = dies cannot_parse_command
  run_command_string c rules (some command) = runs c rules command

  unfoldable pub with_config : Option Bytes → Bytes → Load → Shell
  unfolding server_ssh_new_client run_command_string server_ssh_parse_command
  with_config user command (loaded config) =
      server_ssh_new_client user
        (λ c. run_command_string c config.rules (server_ssh_parse_command command))
  with_config user command failed = dies cannot_read_configuration
  with_config user command spent = out_of_fuel

  -- On fuel for the nesting of configuration files; `config_file` is CONFIG_FILE of the build.
  unfoldable pub shell_main : Files → ℕ → Bytes → List (ℕ × Bytes) → List Bytes → Shell
  unfolding parse_options find_command with_config server_config_load
  shell_main files fuel config_file options words =
      parse_options (record { command_string = none; config_path = config_file }) options
        (λ s.
          find_command s.command_string words (λ user command.
            with_config user command (server_config_load files fuel s.config_path)))
