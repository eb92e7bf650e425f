-- ===== src/Simulator/Placement/Search.antt =====
-- placement.py: the strategy that tries all placements.
-- A simulation of a candidate gives its throughput, or raises: it is an argument, and throughputs are
-- whole numbers.
use open_tela.Prelude.{
  ℕ, zero, suc, ◌+◌, ◌-◌, ◌*◌, ◌/◌, Bool, true, false, List, [], ◌∷◌, ◌++◌, map, length, Option,
  none, some, String, string_eq, Result, ok, raised, ltb, if◌then◌else◌, nat_beq, ◌>>=◌, ◌==◌,
}
use open_tela.Prelude.Dict.{Dict, get, put, get_or}
use open_tela.Simulator.Placement.Fitting.{
  PhysicalNodeConfig, WorkloadConfig, LogicalNode, Analysis, min_tp,
}
use open_tela.Simulator.Placement.Replicas.{PlacementError, zero_division}

-- The loop over the first part: with `suc c` rounds left it is `n - c`, and `c` is left to split.
abbrev pub firsts : (ℕ → List (List ℕ)) → ℕ → ℕ → List (List ℕ)
firsts rest n zero = []
firsts rest n (suc c) = map (λ p. (n - c) ∷ p) (rest c) ++ firsts rest n c

-- `generate_partitions(n, k)`: the ways to split n into k parts. There is a part for every workload;
-- for none the source would not end, and the model gives none.
unfoldable pub generate_partitions : ℕ → ℕ → List (List ℕ)
generate_partitions n zero = []
generate_partitions n (suc zero) = (n ∷ []) ∷ []
generate_partitions n (suc (suc k)) = firsts (λ r. generate_partitions r (suc k)) n (n + 1)

-- `itertools.product(*lists)`
unfoldable pub product : List (List (List ℕ)) → List (List (List ℕ))
product [] = [] ∷ []
product (xs ∷ xss) = each_with xs (product xss)
  where
    each_with : List (List ℕ) → List (List (List ℕ)) → List (List (List ℕ))
    each_with [] rest = []
    each_with (y ∷ ys) rest = map (λ r. y ∷ r) rest ++ each_with ys rest

-- `node_groups`: the number of nodes of each type of GPU.
unfoldable pub node_groups : List PhysicalNodeConfig → Dict String ℕ → Dict String ℕ
node_groups [] groups = groups
node_groups (p ∷ ps) groups =
    node_groups ps (put p.gpu_type (get_or 0 (get p.gpu_type groups) + p.count) groups)

-- `next(n for n in physical_nodes if n.gpu_type == gpu_type)`
unfoldable pub node_of_type : String → List PhysicalNodeConfig → Option PhysicalNodeConfig
node_of_type t [] = none
node_of_type t (p ∷ ps) = if p.gpu_type == t then some p else node_of_type t ps

pub record Assignment : Type 0 where
  pub gpu_type : String
  pub count : ℕ
  pub gpus_per_node : ℕ
  pub tp_size : ℕ
  pub cost : ℕ

abbrev pub placed_before :
    List Assignment → Option (List (List Assignment)) → Option (List (List Assignment))
placed_before a none = none
placed_before a (some rest) = some (a ∷ rest)

module _ (a : Analysis) where
  -- The partition of one type over the workloads; `none` is an invalid assignment.
  unfoldable pub assign_partition :
      PhysicalNodeConfig
      → List WorkloadConfig
      → List ℕ
      → List (List Assignment)
      → Option (List (List Assignment))
  assign_partition p (wl ∷ wls) (c ∷ cs) (x ∷ xs) =
      let rest = assign_partition p wls cs xs in
      let tp = min_tp a p wl in
      if nat_beq c 0
      then placed_before x rest
      else if ltb p.gpus_per_node tp
      then none
      else placed_before
          (x
            ++ (record {
              gpu_type = p.gpu_type;
              count = c;
              gpus_per_node = p.gpus_per_node;
              tp_size = tp;
              cost = p.cost;
            })
              ∷ [])
          rest
  assign_partition p _ _ xs = some xs

  -- The loop over the types; every type is that of a node.
  unfoldable pub assign_types :
      List PhysicalNodeConfig
      → List WorkloadConfig
      → List String
      → List (List ℕ)
      → List (List Assignment)
      → Option (List (List Assignment))
  assign_types nodes wls (t ∷ ts) (c ∷ cs) xs = elim (node_of_type t nodes) [
    | none ↦ none
    | some p ↦ elim (assign_partition p wls c xs) [
      | none ↦ none
      | some xs' ↦ assign_types nodes wls ts cs xs'
    ]
  ]
  assign_types nodes wls _ _ xs = some xs

-- The nodes of a candidate, the next number, and the cost.
pub record Candidate : Type 0 where
  pub candidate_nodes : List LogicalNode
  pub node_counter : ℕ
  pub candidate_cost : ℕ

-- `n` replicas, one after the other.
unfoldable pub add_replicas : ℕ → String → Assignment → Candidate → Candidate
add_replicas zero model x s = s
add_replicas (suc n) model x s = add_replicas n model x (record s {
  candidate_nodes =
      s.candidate_nodes
      ++ (record {
        number = s.node_counter;
        model_id = model;
        hardware = x.gpu_type;
        tp_size = x.tp_size;
      })
        ∷ [];
  node_counter = s.node_counter + 1;
})

-- `for _ in range(count)`
unfoldable pub add_nodes : ℕ → String → Assignment → Candidate → Candidate
add_nodes zero model x s = s
add_nodes (suc n) model x s =
    add_nodes n model x (add_replicas (x.gpus_per_node / x.tp_size) model x s)

unfoldable pub build_workload :
    String → List Assignment → Candidate → Result PlacementError Candidate
build_workload model [] s = ok s
build_workload model (x ∷ xs) s =
    let paid = record s { candidate_cost = s.candidate_cost + x.count * x.cost } in
    let rest = build_workload model xs (add_nodes x.count model x paid) in
    if nat_beq x.tp_size 0 then raised zero_division else rest

unfoldable pub build_candidate :
    List WorkloadConfig → List (List Assignment) → Candidate → Result PlacementError Candidate
build_candidate (wl ∷ wls) (xs ∷ xss) s =
    build_workload wl.model_id xs s >>= λ s'. build_candidate wls xss s'
build_candidate _ _ s = ok s

-- The best so far, with its throughput (`none` is the -1 of the start), and the throughputs of the
-- candidates that were simulated, with their numbers and costs.
pub record Found : Type 0 where
  pub best_config : List LogicalNode
  pub best_throughput : Option ℕ
  pub candidates : List (ℕ × ℕ × ℕ)

abbrev pub improves : ℕ → Option ℕ → Bool
improves t none = true
improves t (some best) = ltb best t

unfoldable pub consider : ℕ → Candidate → Option ℕ → Found → Found
consider i c none s = s
consider i c (some throughput) s =
    let better = improves throughput s.best_throughput in
    record {
      best_config = if better then c.candidate_nodes else s.best_config;
      best_throughput = if better then some throughput else s.best_throughput;
      candidates = s.candidates ++ (i, throughput, c.candidate_cost) ∷ [];
    }

abbrev pub no_nodes : List LogicalNode → Bool
no_nodes [] = true
no_nodes (x ∷ xs) = false

-- A candidate without nodes is not simulated.
unfoldable pub evaluate : (List LogicalNode → Option ℕ) → ℕ → Candidate → Found → Found
evaluate simulate i c s =
    if no_nodes c.candidate_nodes then s else consider i c (simulate c.candidate_nodes) s

abbrev pub empty_candidate : Candidate
empty_candidate = record { candidate_nodes = []; node_counter = 0; candidate_cost = 0 }

abbrev pub empty_lists : List WorkloadConfig → List (List Assignment)
empty_lists [] = []
empty_lists (wl ∷ wls) = [] ∷ empty_lists wls

module _ (a : Analysis) (simulate : List LogicalNode → Option ℕ) where
  abbrev pub search_one :
      List WorkloadConfig
      → ℕ
      → Option (List (List Assignment))
      → Found
      → Result PlacementError Found
  search_one wls i none s = ok s
  search_one wls i (some xss) s =
      build_candidate wls xss empty_candidate >>= λ c. ok (evaluate simulate i c s)

  -- The loop over the combinations.
  unfoldable pub search_all :
      List PhysicalNodeConfig
      → List WorkloadConfig
      → List String
      → ℕ
      → List (List (List ℕ))
      → Found
      → Result PlacementError Found
  search_all nodes wls types i [] s = ok s
  search_all nodes wls types i (c ∷ cs) s =
      search_one wls i (assign_types a nodes wls types c (empty_lists wls)) s >>= λ s'.
      search_all nodes wls types (i + 1) cs s'

  unfoldable pub partitions_of : ℕ → Dict String ℕ → List (List (List ℕ))
  partitions_of k groups = map (λ (x : String × ℕ). generate_partitions x.1 k) groups

  -- `SimulationSearchPlacementStrategy.place`
  unfoldable pub simulation_search :
      List PhysicalNodeConfig → List WorkloadConfig → Result PlacementError Found
  simulation_search nodes [] =
      ok (record { best_config = []; best_throughput = none; candidates = [] })
  simulation_search nodes (wl ∷ wls) =
      let groups = node_groups nodes [] in
      let workloads = wl ∷ wls in
      search_all nodes workloads (map (λ (x : String × ℕ). x.0) groups) 0
        (product (partitions_of (length workloads) groups))
        (record { best_config = []; best_throughput = none; candidates = [] })
