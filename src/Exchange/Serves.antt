-- ===== src/Exchange/Serves.antt =====
-- The message loop of the server (server/server-v2.c) over the access check of server/config.c and
-- the process loop of server/process.c: it comes to an end.
use remctl.Base.{ℕ, ◌<◌, All, length, Bytes}
use remctl.Server.Rule.{Rule}
use remctl.Server.Session.{Client}
use remctl.Server.Acl.{System}
use remctl.Server.Acl.Lines
use remctl.Server.Acl.Leads.{Leads}
use remctl.Server.Commands.Process.{Process}
use remctl.Server.Frugal.{Frugal}

module _ (system : System) (width : ℕ) (rank : Bytes → ℕ) (bound fuel : ℕ) where
  -- The entries of the rule are shorter than `width` and lead to files of a rank below `bound`.
  abbrev pub IsBounded : Rule → Type 0
  IsBounded rule =
      (c : Client)
      → All
          (λ acl.
            (length acl < width)
            × ((n : ℕ) → Leads system c (λ name. rank name < bound) n acl Lines.file))
          rule.acls
