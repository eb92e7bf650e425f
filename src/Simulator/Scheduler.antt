-- ===== src/Simulator/Scheduler.antt =====
-- contrib/serving-simulator/simulator/core/scheduler.py: where a request is placed.
-- Scores are compared as the source's quotients are, with the common denominator multiplied out, so
-- that every number is whole; rounding of floats is left out. `Choice` has the loops, `Algorithms`
-- one function for each scheduler, `RiskAware` the one with tiers.
pub mod Choice
pub mod Algorithms
pub mod RiskAware
pub mod Selection
pub mod Rotation
