-- ===== src/Server/Commands.antt =====
-- Finding the rule of a command and running it (server/commands.c).
pub mod Argv
pub mod Match
pub mod Nuls
pub mod First
pub mod Granted
pub mod Passed
pub mod Access
pub mod Answers
pub mod Process
pub mod Summary
pub mod Dispatch
pub mod Ends
pub mod Tests
