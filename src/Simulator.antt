-- ===== src/Simulator.antt =====
-- The serving simulator, contrib/serving-simulator/simulator/core: one child for each of its files.
pub mod Config
pub mod Request
pub mod Memory
pub mod Heapq
pub mod Events
pub mod Engine
pub mod Scheduler
mod Examples
pub mod Cluster
pub mod Placement
pub mod Analyzer
