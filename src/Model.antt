-- ===== src/Model.antt =====
-- exec/model: what the controllers of the three scopes share.
pub mod Flags
pub mod FlagNames
pub mod Count
pub mod Shuffle
pub mod Select
pub mod Selected
pub mod Identifier
mod Tests
