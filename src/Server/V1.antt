-- ===== src/Server/V1.antt =====
-- Protocol version one on the server (server/server-v1.c): its messages, passed on, and its handler.
mod Messages
pub mod Handle
unfoldable pub use Messages.{send_output, send_error}
