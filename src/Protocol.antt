-- ===== src/Protocol.antt =====
-- util/protocol.h, util/tokens.h and the limits of server/internal.h: the constants of the remctl
-- protocol.
pub mod Message
pub mod Chunks
pub mod Wire
use remctl.Base.{ℕ, ◌*◌, ◌-◌, ◌^◌}

-- `enum error_codes`.
pub data ErrorCode : Type 0 where
  internal bad_token unknown_message bad_command unknown_command access toomany_args : ErrorCode
  toomuch_data unexpected_message no_help : ErrorCode

unfoldable pub error_number : ErrorCode → ℕ
error_number internal = 1
error_number bad_token = 2
error_number unknown_message = 3
error_number bad_command = 4
error_number unknown_command = 5
error_number access = 6
error_number toomany_args = 7
error_number toomuch_data = 8
error_number unexpected_message = 9
error_number no_help = 10

-- `enum token_status`.
pub data TokenStatus : Type 0 where
  token_ok fail_system fail_socket fail_invalid fail_large fail_eof fail_gssapi : TokenStatus
  fail_timeout : TokenStatus

abbrev pub token_max_length : ℕ
token_max_length = 1024 * 1024

abbrev pub token_max_data : ℕ
token_max_data = 64 * 1024

abbrev pub token_max_output_v1 : ℕ
token_max_output_v1 = token_max_data - 4 - 4

abbrev pub command_max_args : ℕ
command_max_args = 4 * 1024

abbrev pub command_max_data : ℕ
command_max_data = 100 * 1024 * 1024

abbrev pub uint32_max : ℕ
uint32_max = 2 ^ 32 - 1
