-- ===== src/Worker.antt =====
-- crates/roadsim-worker-protocol: what the application and a worker process send each other.
pub mod Token
pub mod Frame
pub mod Config
pub mod Data
pub mod Messages
mod Samples
mod Tests
