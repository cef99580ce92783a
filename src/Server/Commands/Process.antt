-- ===== src/Server/Commands/Process.antt =====
-- `struct process` of server/internal.h, as the commands use it, and what `server_process_run`
-- (server/process.c) reports of a run.
use remctl.Base.{ℕ, ◌*◌, Bool, true, Option, List, Bytes, ◌==◌, not}
use remctl.Base.Int.{ℤ, pos, negsuc}
use remctl.Server.Rule.{Rule}
use remctl.Server.Session.{M}

-- A wait status, as WIFEXITED and WEXITSTATUS read it.
pub data WaitStatus : Type 0 where
  exited : ℕ → WaitStatus
  signaled : ℕ → WaitStatus

-- `status != 0`: a signal's number is never 0.
unfoldable pub is_nonzero : WaitStatus → Bool
is_nonzero (exited n) = not (n == 0)
is_nonzero (signaled n) = true

-- WEXITSTATUS of a process that exited, and -1 for the others.
unfoldable pub exit_code : WaitStatus → ℤ
exit_code (exited n) = pos n
exit_code (signaled n) = negsuc 0

-- The wait status as the system encodes it.
unfoldable pub raw_status : WaitStatus → ℤ
raw_status (exited n) = pos (n * 256)
raw_status (signaled n) = pos n

pub record Process : Type 0 where
  pub command : Bytes
  pub argv : List Bytes
  pub rule : Rule
  pub input : Option Bytes

-- Whether the run succeeded, and then its status and the output that was kept for the client.
pub record Finished : Type 0 where
  pub ok : Bool
  pub status : WaitStatus
  pub output : Bytes

-- The access check of server/config.c and the process loop of server/process.c.
pub record Host : Type 0 where
  pub permit : Rule → M Bool
  pub process_run : Process → M Finished
  pub path_sudo : Bytes
