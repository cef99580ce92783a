-- ===== src/Server/Callbacks.antt =====
-- The callbacks that `server_new_client` of server/generic.c and `server_ssh_new_client` of
-- server/server-ssh.c set up.
use remctl.Base.{Bool, Bytes}
use remctl.Base.Int.{ℤ}
use remctl.Protocol.{ErrorCode}
use remctl.Server.Session.{Handlers, v1, v2, ssh, M, client, ◌>>=◌}
use remctl.Server.V1
use remctl.Server.V2.Messages
use remctl.Server.Ssh.Messages as Ssh

unfoldable pub error_by : Handlers → ErrorCode → Bytes → M Bool
error_by v1 code message = V1.send_error code message
error_by v2 code message = Messages.send_error code message
error_by ssh code message = Ssh.send_error code message

unfoldable pub error : ErrorCode → Bytes → M Bool
unfolding error_by
error code message = do c ← client; error_by c.callbacks code message

unfoldable pub finish_by : Handlers → Bytes → ℤ → M Bool
finish_by v1 output exit_status = V1.send_output output exit_status
finish_by v2 output exit_status = Messages.command_finish exit_status
finish_by ssh output exit_status = Ssh.command_finish output exit_status

unfoldable pub finish : Bytes → ℤ → M Bool
unfolding finish_by
finish output exit_status = do c ← client; finish_by c.callbacks output exit_status
