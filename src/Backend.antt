-- ===== src/Backend.antt =====
-- The contract with simulation backends, and the in-memory backend.
pub mod Api
pub mod Seed
pub mod Agents
pub mod Fake
mod Tests
