-- ===== src/Tests.antt =====
-- Tests on concrete inputs, and the theorems at concrete inputs.
pub mod Instances
pub mod Session
pub mod Targets
pub mod Settings
pub mod Frames
pub mod Messages
pub mod Endpoints
pub mod Connections
pub mod Routes
pub mod Routing
pub mod Site
pub mod World
pub mod Clients
pub mod Routed
pub mod Loops
pub mod Streams
pub mod Planes
pub mod Forwards
