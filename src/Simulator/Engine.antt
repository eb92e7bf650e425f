-- ===== src/Simulator/Engine.antt =====
-- contrib/serving-simulator/simulator/core/engine.py: one serving engine.
-- `State` has the records, `Loading` admission and memory, `Decoding` and `Stepping` the phases of a
-- step; the proofs stand in the modules behind them.
pub mod State
pub mod Loading
pub mod Decoding
pub mod Stepping
pub mod Lanes
pub mod PrefillFlow
pub mod Admission
pub mod DecodeFlow
pub mod CompleteFlow
pub mod StepFlow
pub mod Forming
pub mod Raising
pub mod Failing
