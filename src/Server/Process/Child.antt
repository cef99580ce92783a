-- ===== src/Server/Process/Child.antt =====
-- The child's side of `start` (server/process.c): its environment, its privileges, and the program.
use remctl.Base.{ℕ, ltb, Option, none, some, List, [], ◌∷◌, ◌++◌, if◌then◌else◌, Bytes, codes}
use remctl.Server.Rule.{Rule}

-- What the child knows of the client.
pub record Peer : Type 0 where
  pub user : Bytes
  pub ipaddress : Bytes
  pub hostname : Option Bytes
  pub expires : Bytes

-- The assignments of the environment, in order; `expires` is written in decimal.
unfoldable pub environment : Peer → Bytes → List (Bytes × Bytes)
environment peer command =
    (codes "REMUSER", peer.user)
      ∷ (codes "REMOTE_USER", peer.user)
      ∷ (codes "REMOTE_ADDR", peer.ipaddress)
      ∷ (elim peer.hostname as (λ x. List (Bytes × Bytes)) [
        | none ↦ []
        | some hostname ↦ (codes "REMOTE_HOST", hostname) ∷ []
      ])
    ++ (codes "REMCTL_COMMAND", command) ∷ (codes "REMOTE_EXPIRES", peer.expires) ∷ []

-- The user, the group and the user number that the child takes on.
unfoldable pub privileges : Rule → Option (Bytes × ℕ × ℕ)
privileges rule = elim rule.user [
  | none ↦ none
  | some user ↦ if ltb 0 rule.uid then some (user, rule.gid, rule.uid) else none
]

-- The file that is executed.
unfoldable pub executable : Bytes → Rule → Bytes
executable path_sudo rule = elim rule.sudo_user [ none ↦ rule.program | some user ↦ path_sudo ]
