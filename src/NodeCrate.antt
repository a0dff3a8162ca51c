-- ===== src/NodeCrate.antt =====
-- crates/node: the configuration of a node, and the log of commit decisions.
mod Tests
pub mod Config
pub mod Wrapper
