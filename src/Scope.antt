-- ===== src/Scope.antt =====
-- exec/pod/controller.go, exec/node/controller.go and BaseExperimentController of exec/model: how a
-- scope's controller creates and destroys an experiment.
pub mod Defs
pub mod Restored
mod Tests
