-- ===== src/Commands.antt =====
-- crates/roadsim-commands: the commands on the model, its state and its history.
pub mod Primitive
pub mod State
pub mod History
mod Samples
mod Tests
