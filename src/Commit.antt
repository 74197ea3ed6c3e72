-- ===== src/Commit.antt =====
-- packages/nauro-core/src/nauro_core/operations: the planning of a judgment commit. The claims on
-- titles and contents that a commit makes, and what their observation must be for a plan to stand.
pub mod Claims
pub mod Contract
pub mod Finalize
pub mod Tests
