-- ===== src/Tunnel.antt =====
-- The site role (crates/newt/src/tunnel.rs).
pub mod Checksum
pub mod Echo
pub mod Listeners
pub mod Session
pub mod Shuttle
pub mod Accept
pub mod Plane
