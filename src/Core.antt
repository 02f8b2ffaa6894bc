-- ===== src/Core.antt =====
-- The crate `newt-core` (crates/newt-core/src): the targets, the messages and the state machine of a
-- site's control session.
pub mod Target
pub mod Topic
pub mod Proto
pub mod Sm
