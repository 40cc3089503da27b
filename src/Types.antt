-- ===== src/Types.antt =====
-- crates/roadsim-types: identifiers with references to the objects they name, and scalars.
pub mod Ids
pub mod Fault
pub mod Units
pub mod Float
pub mod Order
