-- ===== src/Protocol/Message.antt =====
-- `enum message_types` of util/protocol.h.
use remctl.Base.{ℕ}

abbrev pub command : ℕ
command = 1

abbrev pub quit : ℕ
quit = 2

abbrev pub output : ℕ
output = 3

abbrev pub status : ℕ
status = 4

abbrev pub error : ℕ
error = 5

abbrev pub version : ℕ
version = 6

abbrev pub noop : ℕ
noop = 7
