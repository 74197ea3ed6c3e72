-- ===== src/Sync.antt =====
-- packages/nauro/src/nauro/sync: the pull of decisions, a module for each of its files.
pub mod Names
pub mod Headings
pub mod Corpus
pub mod Collisions
pub mod Quarantine
pub mod State
pub mod Route
pub mod Pull
pub mod Tests
