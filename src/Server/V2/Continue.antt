-- ===== src/Server/V2/Continue.antt =====
-- Which continue statuses the server takes.
use remctl.Base.{ℕ, ◌≤◌, ◌≡◌, ◌↔◌, ◌⊎◌, Bool, true, false, arith}
use remctl.Server.V2.{is_bad_continue}

-- Whether the message continues a command, which statuses fit it by the protocol, and what the
-- server lets through besides: every octet from 128 on.
abbrev pub FitsProtocol : ℕ → Bool → Type 0
FitsProtocol p3 false = (p3 ≡ 0) ⊎ (p3 ≡ 1)
FitsProtocol p3 true = (p3 ≡ 2) ⊎ (p3 ≡ 3)

-- A continue status passes the server's test exactly if the protocol has it at this place, or it is
-- 0 in the middle of a continued command, or it is 128 or more, whatever the place.
pub is_bad_continue_iff :
    (p3 : ℕ) (continued : Bool)
    → (is_bad_continue p3 continued ≡ false)
      ↔ (FitsProtocol p3 continued ⊎ ((p3 ≡ 0) × (continued ≡ true)) ⊎ (128 ≤ p3))
unfolding is_bad_continue
is_bad_continue_iff p3 true = (λ h. grind arith, λ h. grind arith)
is_bad_continue_iff p3 false = (λ h. grind arith, λ h. grind arith)
