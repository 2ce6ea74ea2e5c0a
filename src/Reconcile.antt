-- ===== src/Reconcile.antt =====
-- The reconciler of pkg/controller/chaosblade/controller.go: one call of `Reconcile` reads the
-- custom resource, acts on its phase, and writes it back. The API server and the executor are
-- parameters over a state `W` of the world that every request passes through.
mod Defs
pub mod Finalizers
pub mod Loops
pub mod Phases
pub mod Machine
pub mod Effects
pub mod CleanUp
pub mod Abandoned
pub mod Lifecycle
mod CleanUpTests
mod Tests
unfoldable pub use Defs.*
