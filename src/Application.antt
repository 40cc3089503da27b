-- ===== src/Application.antt =====
-- crates/roadsim-application: the orchestration of runs, and the snapshots for the renderer.
pub mod Run
pub mod Snapshot
mod Tests
