-- ===== src/Server.antt =====
-- The server, remctld (server/).
pub mod Session
pub mod Negotiate
pub mod Process
pub mod Frugal
pub mod Parse
pub mod V1
pub mod V2
pub mod Callbacks
pub mod Rule
pub mod Acl
pub mod Config
pub mod Ssh
pub mod Log
pub mod Commands
