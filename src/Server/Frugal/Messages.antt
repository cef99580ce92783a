-- ===== src/Server/Frugal/Messages.antt =====
-- The messages of the server read nothing.
use remctl.Base.{arith, ℕ, Bool, List, [], ◌∷◌, ◌++◌, Bytes}
use remctl.Base.Int.{ℤ, negsuc}
use remctl.Protocol.{
  ErrorCode, TokenStatus, token_ok, fail_system, fail_socket, fail_invalid, fail_large, fail_eof,
  fail_gssapi, fail_timeout,
}
use remctl.Server.Frugal.{Frugal, frugal_rules}
use remctl.Server.V1
use remctl.Server.V2.Messages.{
  sent_or_fatal, send_output, command_finish, send_error, send_version, send_noop,
}
use remctl.Server.Session.{Handlers, v1, v2, ssh, Terminal, set_terminal}
use remctl.Server.Ssh.Messages as Ssh
use remctl.Server.Ssh.Messages.{write_next, write}
use remctl.Server.Callbacks.{error_by, error, finish_by, finish}

Frugal-sent_or_fatal : (status : TokenStatus) → Frugal (sent_or_fatal status)
unfolding sent_or_fatal
Frugal-sent_or_fatal token_ok = search frugal_rules
Frugal-sent_or_fatal fail_system = search frugal_rules
Frugal-sent_or_fatal fail_socket = search frugal_rules
Frugal-sent_or_fatal fail_invalid = search frugal_rules
Frugal-sent_or_fatal fail_large = search frugal_rules
Frugal-sent_or_fatal fail_eof = search frugal_rules
Frugal-sent_or_fatal fail_gssapi = search frugal_rules
Frugal-sent_or_fatal fail_timeout = search frugal_rules

pub Frugal-send_output : (stream : ℕ) (output : Bytes) → Frugal (send_output stream output)
unfolding send_output
Frugal-send_output stream output = search (frugal_rules, Frugal-sent_or_fatal)

Frugal-command_finish : (status : ℤ) → Frugal (command_finish status)
unfolding command_finish
Frugal-command_finish status = search (frugal_rules, Frugal-sent_or_fatal)

Frugal-send_error : (code : ErrorCode) (message : Bytes) → Frugal (send_error code message)
unfolding send_error
Frugal-send_error code message = search (frugal_rules, Frugal-sent_or_fatal)

pub Frugal-send_version : Frugal send_version
unfolding send_version
Frugal-send_version = search (frugal_rules, Frugal-sent_or_fatal)

pub Frugal-send_noop : Frugal send_noop
unfolding send_noop
Frugal-send_noop = search (frugal_rules, Frugal-sent_or_fatal)

Frugal-v1_output : (output : Bytes) (status : ℤ) → Frugal (V1.send_output output status)
unfolding V1.send_output
Frugal-v1_output output status = search frugal_rules

Frugal-v1_error : (code : ErrorCode) (message : Bytes) → Frugal (V1.send_error code message)
unfolding V1.send_error
Frugal-v1_error code message = Frugal-v1_output (message ++ 10 ∷ []) (negsuc 0)

Frugal-set_terminal : (t : Terminal) → Frugal (set_terminal t)
Frugal-set_terminal t = record { leaves = λ c. omega arith }

Frugal-write_next :
    (fd : ℕ) (bytes : Bytes) (t : Terminal) (writes : List Bool)
    → Frugal (write_next fd bytes t writes)
unfolding write_next
Frugal-write_next fd bytes t [] = search (frugal_rules, Frugal-set_terminal)
Frugal-write_next fd bytes t (taken ∷ writes) = search (frugal_rules, Frugal-set_terminal)

pub Frugal-write : (fd : ℕ) (bytes : Bytes) → Frugal (write fd bytes)
unfolding write
Frugal-write fd bytes = search (frugal_rules, Frugal-write_next)

Frugal-ssh_error : (code : ErrorCode) (message : Bytes) → Frugal (Ssh.send_error code message)
unfolding Ssh.send_error
Frugal-ssh_error code message = search (frugal_rules, Frugal-write)

Frugal-error_by :
    (handlers : Handlers) (code : ErrorCode) (message : Bytes)
    → Frugal (error_by handlers code message)
unfolding error_by
Frugal-error_by v1 code message = Frugal-v1_error code message
Frugal-error_by v2 code message = Frugal-send_error code message
Frugal-error_by ssh code message = Frugal-ssh_error code message

Frugal-finish_by :
    (handlers : Handlers) (output : Bytes) (status : ℤ) → Frugal (finish_by handlers output status)
unfolding finish_by Ssh.command_finish
Frugal-finish_by v1 output status = Frugal-v1_output output status
Frugal-finish_by v2 output status = Frugal-command_finish status
Frugal-finish_by ssh output status = search frugal_rules

pub Frugal-error : (code : ErrorCode) (message : Bytes) → Frugal (error code message)
unfolding error
Frugal-error code message = search (frugal_rules, Frugal-error_by)

pub Frugal-finish : (output : Bytes) (status : ℤ) → Frugal (finish output status)
unfolding finish
Frugal-finish output status = search (frugal_rules, Frugal-finish_by)
