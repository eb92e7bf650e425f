-- ===== src/Simulator/Memory.antt =====
-- contrib/serving-simulator/simulator/core/memory.py: the planner of the KV cache blocks.
-- Byte counts with fractions are kept exact as numbers of bits; a division by the number of shards
-- is carried to the other side of the comparison, or into the divisor.
-- `Sizes` has the derived sizes, `Planner` the state and its operations; the proofs stand beside.
pub mod Sizes
pub mod Planner
pub mod Blocks
pub mod Freeing
pub mod Fit
