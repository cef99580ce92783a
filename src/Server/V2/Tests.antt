-- ===== src/Server/V2/Tests.antt =====
-- Continue statuses and a command in one token.
use remctl.Base.{ℕ, ◌≡◌, ◌↔◌, ◌⊎◌, ◌≤◌, true, false}
use remctl.Server.V2.{is_bad_continue}
use remctl.Server.V2.Continue.{FitsProtocol, is_bad_continue_iff}

abbrev beyond : ℕ
beyond = 200

is_bad_continue_iff_example :
    (is_bad_continue beyond false ≡ false)
    ↔ (FitsProtocol beyond false ⊎ ((beyond ≡ 0) × (false ≡ true)) ⊎ (128 ≤ beyond))
is_bad_continue_iff_example = is_bad_continue_iff beyond false
