-- ===== src/Decisions.antt =====
-- The decisions: packages/nauro-core/src/nauro_core/operations/_decision_transitions.py.
pub mod Slug
pub mod Model
pub mod Transitions
pub mod Tests
