-- ===== src/Transport.antt =====
-- The control transport (crates/newt/src/transport).
pub mod Frame
pub mod Endpoint
pub mod Messages
pub mod Connect
pub mod Token
