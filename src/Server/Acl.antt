-- ===== src/Server/Acl.antt =====
-- Access control lists (the checks of server/config.c): the status of an entry, and what the checks
-- ask of the system and of the libraries. Warnings are left out.
pub mod Lines
pub mod Include
pub mod Check
pub mod Reads
pub mod First
pub mod Deny
pub mod Directory
pub mod Fuel
pub mod Leads
pub mod Decided
pub mod Nesting
pub mod Tests
use remctl.Base.{ℕ, Bool, Option, List, Bytes}

-- `enum config_status`.
pub data Status : Type 0 where
  success nomatch error deny : Status

-- The status of a check whose nesting is bounded by fuel.
pub data Answer : Type 0 where
  decided : Status → Answer
  spent : Answer

-- What `stat` and then `opendir` and `readdir` say of a file name: a directory that cannot be opened
-- has no list of names.
pub data Kind : Type 0 where
  regular : Kind
  directory : Option (List Bytes) → Kind

-- A lookup that can fail, and can find nothing.
pub data Lookup {ℓ} (A : Type ℓ) : Type ℓ where
  failed absent : Lookup A
  found : A → Lookup A

pub data Matched : Type 0 where
  matched not_matched match_failed : Matched

-- A library of regular expressions: whether a pattern compiles, and how it matches a user.
pub record Engine : Type 0 where
  pub compile : Bytes → Bool
  pub execute : Bytes → Bytes → Matched

-- The GPUT library: `gput_open`, and `gput_check` with its role, user and transform.
pub record Gput : Type 0 where
  pub open_file : Bool
  pub check : Bytes → Bytes → Option Bytes → Bool

pub record Group : Type 0 where
  pub gid : ℕ
  pub members : List Bytes

-- `acl_getgrnam`, `user_to_localname`, and the primary group that `getpwnam` gives for a user.
pub record Groups : Type 0 where
  pub getgrnam : Bytes → Lookup Group
  pub localname : Bytes → Lookup Bytes
  pub getpwnam : Bytes → Option ℕ

-- The system. `lines` are what `fgets` gives up to the end of the file, each up to its first nul,
-- and nothing where `fopen` fails; a library that the build leaves out is missing.
pub record System : Type 0 where
  pub bufsiz : ℕ
  pub stat : Bytes → Option Kind
  pub lines : Bytes → Option (List Bytes)
  pub gput : Option Gput
  pub localgroup : Option Groups
  pub pcre : Option Engine
  pub regex : Option Engine
