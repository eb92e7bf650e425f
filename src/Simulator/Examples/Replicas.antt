-- ===== src/Simulator/Examples/Replicas.antt =====
-- placement.py: a small cluster, tests, and the theorems applied to it.
use open_tela.Prelude.{
  ℕ, ◌/◌, ◌≡◌, refl, ◌&&◌, List, [], ◌∷◌, length, Option, none, some, Result, ok, raised, sum_by,
  arith, nat_beq, if◌then◌else◌,
}
use open_tela.Prelude.Dict.{get, put}
use open_tela.Prelude.Text.{lower, occurs_in, is_prefix}
use open_tela.Simulator.Placement.Fitting.{
  PhysicalNodeConfig, WorkloadConfig, LogicalNode, Analysis, has_config_module, check_fits,
  estimate_model_memory, first_fit, find_min_tp_size, min_tp, flatten, insert_ascending,
  sort_ascending, insert_descending, sort_descending,
}
use open_tela.Simulator.Placement.Replicas.{
  Progress, PlacementError, min_from, append_replicas, assign_node, place_node, zero_counts,
  compatible_workloads, place_nodes, maximize_replicas,
}
use open_tela.Simulator.Placement.Search.{
  Found, generate_partitions, product, node_groups, node_of_type, assign_partition, assign_types,
  add_replicas, add_nodes, build_workload, build_candidate, consider, evaluate, search_all,
  partitions_of, simulation_search,
}
use open_tela.Simulator.Placement.Sizing.{IsLeast, find_min_tp_size-IsLeast}
use open_tela.Simulator.Placement.Counting.{Sound}
use open_tela.Simulator.Placement.Capacity.{all_gpus, all_costs, maximize_replicas-Sound}
use open_tela.Simulator.Placement.Partitions.{one_if_same, generate_partitions-once, total}
use open_tela.Simulator.Placement.Best.{Best, simulation_search-Best}

-- A model that needs 100 on one GPU and half of it on two; a GPU has 80.
abbrev analysis : Analysis
analysis = record {
  vmemory = λ hardware. 80;
  memory_consumption = λ model hardware tp. some (100 / tp);
  memory_threshold = (8, 10);
}

abbrev nodes : List PhysicalNodeConfig
nodes = record { gpu_type = "NVDA:H100"; count = 2; gpus_per_node = 4; cost = 300 } ∷ []

abbrev workloads : List WorkloadConfig
workloads =
    record { model_id = "llama-a"; tensor_parallel_size = none }
    ∷ record { model_id = "llama-b"; tensor_parallel_size = some 4 }
    ∷ []

abbrev value_or : {A : Type 0} → A → Result PlacementError A → A
value_or a (raised x) = a
value_or a (ok b) = b

find_min_tp_size_test : find_min_tp_size analysis "NVDA:H100" "llama-a" 4 ≡ 2
unfolding find_min_tp_size first_fit check_fits has_config_module lower occurs_in is_prefix
find_min_tp_size_test = refl

find_min_tp_size-IsLeast_example :
    IsLeast analysis "NVDA:H100" "llama-a" 4 (find_min_tp_size analysis "NVDA:H100" "llama-a" 4)
find_min_tp_size-IsLeast_example =
    find_min_tp_size-IsLeast analysis "NVDA:H100" "llama-a" 4 (omega arith)

abbrev placed : Progress
placed =
    value_or (record { logical_nodes = []; node_counter = 0; total_cost = 0; replica_counts = [] })
      (maximize_replicas analysis nodes workloads)

maximize_replicas-Sound_example : Sound (all_gpus nodes) (all_costs nodes) placed
unfolding maximize_replicas place_nodes place_node assign_node append_replicas min_from zero_counts
    compatible_workloads min_tp find_min_tp_size first_fit check_fits estimate_model_memory
    has_config_module lower occurs_in is_prefix flatten insert_ascending sort_ascending
    insert_descending sort_descending get put
maximize_replicas-Sound_example = maximize_replicas-Sound analysis nodes workloads placed refl

-- Two replicas of the first model on one node, one of the second on the other.
placed_test : placed.node_counter ≡ 3
unfolding maximize_replicas place_nodes place_node assign_node append_replicas min_from zero_counts
    compatible_workloads min_tp find_min_tp_size first_fit check_fits estimate_model_memory
    has_config_module lower occurs_in is_prefix flatten insert_ascending sort_ascending
    insert_descending sort_descending get put
placed_test = refl

generate_partitions-once_example :
    sum_by (one_if_same (1 ∷ 2 ∷ [])) (generate_partitions 3 2)
    ≡ (if nat_beq (length {A = ℕ} (1 ∷ 2 ∷ [])) 2 && nat_beq (total (1 ∷ 2 ∷ [])) 3 then 1 else 0)
generate_partitions-once_example = generate_partitions-once 3 2 (1 ∷ 2 ∷ []) (omega arith)

-- A simulation that counts the replicas.
abbrev simulate : List LogicalNode → Option ℕ
simulate xs = some (length xs)

abbrev found : Found
found =
    value_or (record { best_config = []; best_throughput = none; candidates = [] })
      (simulation_search analysis simulate nodes workloads)

simulation_search-Best_example : Best simulate found
unfolding simulation_search search_all evaluate consider build_candidate build_workload add_nodes
    add_replicas assign_types assign_partition node_of_type node_groups product partitions_of
    generate_partitions min_tp find_min_tp_size first_fit check_fits has_config_module lower
    occurs_in is_prefix get put
simulation_search-Best_example = simulation_search-Best simulate analysis nodes workloads found refl
