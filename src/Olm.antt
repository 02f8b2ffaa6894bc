-- ===== src/Olm.antt =====
-- The client role (crates/newt/src/olm).
pub mod Cidr
pub mod Router
pub mod Userspace
pub mod Holepunch
pub mod Client
pub mod Backend
pub mod Tun
pub mod Kernel
pub mod Netlink
pub mod Plane
pub mod Proto
