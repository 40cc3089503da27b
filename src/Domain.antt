-- ===== src/Domain.antt =====
-- crates/roadsim-domain: the Design Model and the study catalog of a project.
pub mod ReferenceLine
pub mod Stations
pub mod Flows
pub mod Corridor
pub mod Multimodal
pub mod Control
pub mod ControlCatalog
pub mod ControlChecks
pub mod Catalog
pub mod Design
pub mod Scenario
pub mod Study
pub mod Rules
pub mod Text
pub mod Project
mod Tests
