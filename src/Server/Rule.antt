-- ===== src/Server/Rule.antt =====
-- `struct rule` of server/internal.h. A pointer that may be NULL is an `Option`. The split line, of
-- which the other fields are parts, is left out.
use remctl.Base.{ℕ, Option, List, Bytes}

-- `stdin_arg`: -1 for the last argument, 0 for none.
pub data StdinArg : Type 0 where
  last : StdinArg
  position : ℕ → StdinArg

pub record Rule : Type 0 where
  pub file : Bytes
  pub lineno : ℕ
  pub command : Bytes
  pub subcommand : Bytes
  pub program : Bytes
  pub logmask : List ℕ
  pub stdin_arg : StdinArg
  pub user : Option Bytes
  pub sudo_user : Option Bytes
  pub uid : ℕ
  pub gid : ℕ
  pub summary : Option Bytes
  pub help : Option Bytes
  pub acls : List Bytes
