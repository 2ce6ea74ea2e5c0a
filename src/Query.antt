-- ===== src/Query.antt =====
-- The queries for the pods and nodes of an experiment, by name and by label.
pub mod Defs
pub mod Labels
pub mod Found
mod Tests
