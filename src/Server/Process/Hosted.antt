-- ===== src/Server/Process/Hosted.antt =====
-- Commands over `server_process_run` (server/commands.c, server/process.c).
use remctl.Base.{◌≡◌, Bool, true, Bytes}
use remctl.Server.Rule.{Rule}
use remctl.Server.Session.{Client, M, done, bind_done}
use remctl.Server.Commands.Process.{Process, Host}
use remctl.Server.Process.{Inputs, Running, output_of, server_process_run, run_process}

-- A host whose processes are run by `server_process_run`.
abbrev pub host_of : (Rule → M Bool) → Bytes → (Process → Inputs) → Host
host_of permit path_sudo inputs = record {
  permit = permit;
  process_run = run_process inputs;
  path_sudo = path_sudo;
}

pub run_process-done :
    (inputs : Process → Inputs) (process : Process) (c d : Client) (p : Running)
    → server_process_run (inputs process) c ≡ done (true, p) d
    → run_process inputs process c
      ≡ done (record { ok = true; status = p.status; output = output_of p.output }) d
unfolding run_process
run_process-done inputs process c d p e = bind_done (server_process_run (inputs process)) _ c e
