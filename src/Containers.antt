-- ===== src/Containers.antt =====
-- exec/container/controller.go: which containers of the selected pods an experiment takes.
pub mod Defs
pub mod Matched
pub mod Stale
pub mod Controller
mod Tests
