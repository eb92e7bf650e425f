-- ===== src/Simulator/Cluster.antt =====
-- contrib/serving-simulator/simulator/core/cluster_manager.py: the cluster of engines.
-- `State` has the records, `Handlers` the handlers of the event loop, `Simulation` the methods around
-- a run; the proofs stand in the modules behind them.
pub mod State
pub mod Dispatch
pub mod Requests
pub mod Nodes
pub mod Handlers
pub mod Simulation
pub mod Growth
pub mod Queueing
pub mod Ledger
pub mod Machine
pub mod Moves
pub mod Refinement
pub mod Setup
pub mod Outcome
pub mod Placing
pub mod Progress
pub mod Starting
