-- ===== src/HookFs.antt =====
-- pkg/hookfs, the file system that injects faults: the hooks, the cache of faults and the two
-- handlers that write it.
pub mod Defs
pub mod Hooks
pub mod Faults
pub mod Client
mod Tests
