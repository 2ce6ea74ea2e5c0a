-- ===== src/Deploy.antt =====
-- The deployment of the tool into a container: what it runs there, and what stands there afterwards.
pub mod Defs
pub mod Blade
pub mod Leaves
pub mod Complete
pub mod Tar
pub mod Trees
pub mod Walk
pub mod WalkTests
pub mod Tests
