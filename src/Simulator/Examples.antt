-- ===== src/Simulator/Examples.antt =====
-- Tests of the simulator's parts, and the theorems applied to small inputs.
mod Samples
mod Memory
mod Loop
mod Engine
mod Placement
mod Nodes
mod Simulation
mod Cluster
mod Replicas
mod Analysis
