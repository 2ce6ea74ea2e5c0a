-- ===== src/Polling.antt =====
-- The polling for the end of an experiment with a timeout (checkExperimentStatus).
pub mod Defs
pub mod Ticks
mod Tests
