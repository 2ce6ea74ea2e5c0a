-- ===== src/Dispatch.antt =====
-- exec/controller.go: the executor of the reconciler hands each experiment to the controller of its
-- scope and turns the answer into the status of the experiment.
mod Defs
pub mod Statuses
pub mod Scopes
mod Tests
unfoldable pub use Defs.*
