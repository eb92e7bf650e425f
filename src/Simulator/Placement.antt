-- ===== src/Simulator/Placement.antt =====
-- contrib/serving-simulator/simulator/core/placement.py: how physical nodes are split into replicas.
-- A logical node carries the number <n> of its name `node_<n>`. Costs are whole cents, and the
-- threshold of the memory is a quotient. `Replicas` has the first strategy, `Search` the one that
-- tries all placements; the proofs stand in the modules behind them.
pub mod Fitting
pub mod Replicas
pub mod Sizing
pub mod Counting
pub mod Capacity
pub mod Search
pub mod Partitions
pub mod Best
