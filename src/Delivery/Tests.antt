-- ===== src/Delivery/Tests.antt =====
-- One command on its way from the client to the server.
use remctl.Base.{◌≡◌, List, [], ◌∷◌, arith, Bytes, codes, false, refl}
use remctl.Base.Int.{ℤ, pos}
use remctl.Protocol.Wire.{payload, body}
use remctl.Base.{htonl}
use remctl.Protocol.{fail_eof}
use remctl.Channel.{Channel, failed}
use remctl.Client.V2.{ready, commandv}
use remctl.Client.V2.Reliable.{after}
use remctl.Server.Session.{v2, blank, Client, M, pure, ◌>>◌}
use remctl.Server.V2.Collect.{resumed}
use remctl.Server.V2.Handle.{not_fatal, handle_token}
use remctl.Base.{true}
use remctl.Channel.{token}
use remctl.Client.Session.{Remctl, remctl_new}
use remctl.Client.V1.{internal_v1_commandv}
use remctl.Client.V1.Sent.{asked}
use remctl.Server.V1.Handle.{received, server_v1_handle_messages}
use remctl.Delivery.V1.{command_delivered_v1}
use remctl.Delivery.{IsAccepted, arriving, command_delivered}

abbrev quiet : Channel
quiet = record { sent = []; outcomes = []; incoming = [] }

abbrev test_client : Client
test_client = record {
  protocol = 2;
  user = codes "test@EXAMPLE.ORG";
  anonymous = false;
  keepalive = false;
  fatal = false;
  channel = quiet;
  callbacks = v2;
  terminal = blank;
}

abbrev test_command : List Bytes
test_command = codes "test" ∷ codes "argument" ∷ []

abbrev exit_zero : List Bytes → M ℤ
exit_zero argv = pure (pos 0)

test_command-IsAccepted : IsAccepted test_command
unfolding payload body htonl
test_command-IsAccepted = omega arith

command_delivered_example :
    (tok : Bytes) × (tokens : List Bytes) × (commandv test_command quiet
      ≡ (ready, after quiet (tok ∷ tokens)))
    × (handle_token exit_zero tok (arriving test_client tokens (failed fail_eof ∷ []))
        ≡ (exit_zero test_command >> not_fatal) (resumed test_client (failed fail_eof ∷ [])))
command_delivered_example =
    command_delivered exit_zero test_command test_command-IsAccepted quiet test_client
      (failed fail_eof ∷ []) refl

abbrev quiet_session : Remctl
quiet_session = remctl_new (record {
  attempts = [];
  tried = [];
  handshakes = [];
  channel = quiet;
  flags = [];
  closed = [];
})

command_delivered_v1_example :
    (tok : Bytes) × (internal_v1_commandv quiet_session test_command
      ≡ (true, asked quiet_session tok))
    × (server_v1_handle_messages exit_zero (received test_client (token tok ∷ failed fail_eof ∷ []))
        ≡ (exit_zero test_command >> pure tt) (received test_client (failed fail_eof ∷ [])))
unfolding payload body htonl
command_delivered_v1_example =
    command_delivered_v1 exit_zero quiet_session test_client test_command (failed fail_eof ∷ [])
      (omega arith) (omega arith) (omega arith) (omega arith) refl
