-- ===== src/Client/Api.antt =====
-- The library's interface on sessions (client/api.c): opening, commands, results, closing.
pub mod Calls
pub mod Stale
pub mod Turns
use remctl.Base.{
  ℕ, ◌+◌, ◌-◌, ◌^◌, ◌∷◌, ◌++◌, [], Bool, true, false, not, ◌&&◌, ◌||◌, Option, none, some, List,
  length, ltb, ◌==◌, if◌then◌else◌, Bytes,
}
use remctl.Base.Int.{ℤ, pos, negsuc}
use remctl.Client.Session.{
  Error, no_connection, cannot_connect, empty_command, noop_unsupported, invalid_timeout, World,
  Attempt, no_address, not_connected, connected, Slot, Remctl, set_error, socket_close,
  close_connection,
}
use remctl.Client.Open.{internal_connect, internal_open, next_attempt}
use remctl.Client.V2.{commandv}
use remctl.Client.V2.Messages.{commandv_result, internal_v2_quit, internal_v2_output, internal_noop}
use remctl.Client.V1.{internal_v1_commandv, internal_v1_output}

abbrev pub remctl_port : ℕ
remctl_port = 4373

abbrev pub remctl_port_old : ℕ
remctl_port_old = 4444

unfoldable pub remctl_set_source_ip : Remctl → Bytes → Bool × Remctl
remctl_set_source_ip r source = (true, record r { source = some source })

-- With a gss_krb5_import_cred: the cache is set for this session only.
unfoldable pub remctl_set_ccache : Remctl → Bytes → Bool × Remctl
remctl_set_ccache r ccache = (true, record r { ccache = some ccache })

unfoldable pub remctl_set_timeout : Remctl → ℤ → Bool × Remctl
remctl_set_timeout r (negsuc n) = (false, set_error (invalid_timeout (negsuc n)) r)
remctl_set_timeout r (pos n) = (true, record r { timeout = pos n })

-- A connection of protocol version two is told to quit.
unfoldable pub quit_connection : Remctl → Remctl
quit_connection r = if ltb 1 r.protocol then (internal_v2_quit r).1 else r

-- The descriptor is closed and stays in the structure.
unfoldable pub reset_connection : Option ℕ → Remctl → Remctl
unfolding quit_connection
reset_connection none r = r
reset_connection (some fd) r = socket_close (quit_connection r)

unfoldable pub internal_reset : Remctl → Remctl
unfolding reset_connection
internal_reset r = record (reset_connection r.fd r) { error = none; output = none }

-- The second connection's error gives way to that of the first.
unfoldable pub prefer_error : Option Error → Option ℕ × Remctl → Option ℕ × Remctl
prefer_error old_error (none, r) = (none, record r { error = old_error })
prefer_error old_error (some fd, r) = (some fd, r)

unfoldable pub connect_old : Option Bytes → Option ℕ × Remctl → Option ℕ × Remctl
unfolding prefer_error
connect_old host (some fd, r) = (some fd, r)
connect_old host (none, r) =
    prefer_error r.error (internal_connect (record r { error = none }) host remctl_port_old)

-- Port 0 stands for the standard port and, behind it, the legacy one.
unfoldable pub connect_ports : Remctl → Option Bytes → ℕ → Option ℕ × Remctl
unfolding connect_old
connect_ports r host port =
    if port == 0
    then connect_old host (internal_connect r host remctl_port)
    else internal_connect r host port

unfoldable pub open_connected : Option ℕ × Remctl → Bool × Remctl
open_connected (none, r) = (false, r)
open_connected (some fd, r) = internal_open (record r { fd = some fd })

unfoldable pub remctl_open : Remctl → Option Bytes → ℕ → Option Bytes → Bool × Remctl
unfolding open_connected connect_ports internal_reset
remctl_open r host port principal = open_connected (
    connect_ports (record (internal_reset r) { host = host; port = port; principal = principal })
      host port)

-- The session without a host to go back to.
abbrev pub without_host : Remctl → Option Bytes → Remctl
without_host r principal = record (internal_reset r) {
  host = none;
  port = 0;
  principal = principal;
}

-- `network_connect` takes no name, so both failures are one.
unfoldable pub addrinfo_attempt : Attempt → Remctl → Bool × Remctl
addrinfo_attempt (connected fd) r = internal_open (record r { fd = some fd })
addrinfo_attempt other r = (false, set_error cannot_connect r)

unfoldable pub remctl_open_addrinfo : Remctl → Option Bytes → Bool × Remctl
unfolding addrinfo_attempt
remctl_open_addrinfo r principal =
    let r' = without_host r principal in
    let (attempt, rest) = next_attempt r'.world.attempts in
    addrinfo_attempt attempt (record r' { world = record r'.world { attempts = rest } })

unfoldable pub remctl_open_fd : Remctl → ℕ → Option Bytes → Bool × Remctl
remctl_open_fd r fd principal = internal_open (record (without_host r principal) { fd = some fd })

unfoldable pub close_fd : Option ℕ → Remctl → Remctl
unfolding quit_connection
close_fd none r = r
close_fd (some fd) r = socket_close (quit_connection r)

-- The structure is freed: what is left is the world.
unfoldable pub remctl_close : Remctl → World
unfolding close_fd
remctl_close r = (close_fd r.fd r).world

unfoldable pub clear_error : Bool × Remctl → Bool × Remctl
clear_error (false, r) = (false, r)
clear_error (true, r) = (true, record r { error = none })

unfoldable pub reopen_host : Option Bytes → Remctl → Bool × Remctl
unfolding clear_error
reopen_host none r = (false, set_error no_connection r)
reopen_host (some host) r = clear_error (remctl_open r (some host) r.port r.principal)

unfoldable pub reopen_fd : Option ℕ → Remctl → Bool × Remctl
unfolding reopen_host
reopen_fd (some fd) r = (true, record r { error = none })
reopen_fd none r = reopen_host r.host r

unfoldable pub internal_reopen : Remctl → Bool × Remctl
unfolding reopen_fd
internal_reopen r = reopen_fd r.fd r

unfoldable pub commandv_open : List Bytes → Bool × Remctl → Bool × Remctl
commandv_open command (false, r) = (false, r)
commandv_open command (true, r) =
    if r.protocol == 1
    then internal_v1_commandv r command
    else commandv_result (commandv command r.world.channel) r

unfoldable pub remctl_commandv : Remctl → List Bytes → Bool × Remctl
unfolding commandv_open internal_reopen
remctl_commandv r command = commandv_open command (internal_reopen r)

-- The arguments are strings: none has a nul, and their lengths are those of `strlen`.
unfoldable pub remctl_command : Remctl → List Bytes → Bool × Remctl
unfolding remctl_commandv
remctl_command r [] = (false, set_error empty_command r)
remctl_command r (arg ∷ args) = remctl_commandv r (arg ∷ args)

unfoldable pub noop_open : Bool × Remctl → Bool × Remctl
noop_open (false, r) = (false, r)
noop_open (true, r) =
    if r.protocol == 1 then (false, set_error noop_unsupported r) else internal_noop r

unfoldable pub remctl_noop : Remctl → Bool × Remctl
unfolding noop_open internal_reopen
remctl_noop r = noop_open (internal_reopen r)

abbrev pub is_missing {ℓ} : {A : Type ℓ} → Option A → Bool
is_missing none = true
is_missing (some a) = false

unfoldable pub output_open : Remctl → Option Slot × Remctl
output_open r = if r.protocol == 1 then internal_v1_output r else internal_v2_output r

unfoldable pub remctl_output : Remctl → Option Slot × Remctl
unfolding output_open
remctl_output r =
    if is_missing r.fd && (not (r.protocol == 1) || is_missing r.host)
    then (none, set_error no_connection r)
    else output_open (record r { error = none })
