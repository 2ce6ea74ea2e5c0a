-- ===== src/Parallel.antt =====
-- exec/model: the execution of one command per matched container by concurrent workers.
pub mod Defs
pub mod Runs
pub mod Ends
pub mod Executor
mod Tests
