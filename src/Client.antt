-- ===== src/Client.antt =====
-- The client library, libremctl (client/).
pub mod V2
pub mod Session
pub mod V1
pub mod Open
pub mod Api
pub mod Simple
pub mod Program
mod Tests
