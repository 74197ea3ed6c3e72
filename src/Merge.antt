-- ===== src/Merge.antt =====
-- packages/nauro/src/nauro/sync/merge.py: how two versions of a store file become one.
pub mod Union
pub mod Paths
pub mod Native
pub mod Skip
pub mod Conflict
pub mod Tests
