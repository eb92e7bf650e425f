-- ===== src/Simulator/Cluster/Starting.antt =====
-- cluster_manager.py: what `_initialize_cluster` can build.
