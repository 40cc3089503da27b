-- ===== src/Network.antt =====
-- crates/roadsim-compiled-network: the immutable network that compilation publishes.
pub mod Reach
pub mod Graph
pub mod Movements
pub mod Geometry
pub mod Pedestrian
pub mod Lanes
pub mod Demand
pub mod Controls
pub mod Compiled
mod Samples
mod Tests
