-- ===== src/Util.antt =====
-- The parts of util/ that the server and the client share.
pub mod Vector
pub mod Tokens
pub mod GssTokens
