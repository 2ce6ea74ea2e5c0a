-- ===== src/Commands.antt =====
-- exec/model/executor.go and executor_copy.go: the commands that are run on the nodes.
pub mod Defs
pub mod Daemons
pub mod Identifiers
pub mod Targets
pub mod Generated
mod Tests
