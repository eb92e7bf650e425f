-- ===== src/Simulator/Placement/Replicas.antt =====
-- placement.py: the strategy that makes as many replicas as possible.
use open_tela.Prelude.{
  ℕ, zero, suc, ◌+◌, ◌/◌, List, [], ◌∷◌, ◌++◌, String, string_eq, Result, ok, raised, ltb, leb,
  if◌then◌else◌, nat_beq, ◌>>=◌,
}
use open_tela.Prelude.Dict.{Dict, get, put, get_or}
use open_tela.Simulator.Placement.Fitting.{
  PhysicalNodeConfig, WorkloadConfig, LogicalNode, Analysis, min_tp, estimate_model_memory, flatten,
  sort_ascending, sort_descending,
}

-- A tensor parallel size of 0 divides by 0.
pub data PlacementError : Type 0 where
  zero_division : PlacementError

-- What the loop over the nodes changes.
pub record Progress : Type 0 where
  pub logical_nodes : List LogicalNode
  pub node_counter : ℕ
  pub total_cost : ℕ
  pub replica_counts : Dict String ℕ

abbrev pub count_of : Dict String ℕ → WorkloadConfig × ℕ → ℕ
count_of counts (wl, tp) = get_or 0 (get wl.model_id counts)

-- `min` with a key: the first of the smallest.
unfoldable pub min_from :
    Dict String ℕ → WorkloadConfig × ℕ → List (WorkloadConfig × ℕ) → WorkloadConfig × ℕ
min_from counts best [] = best
min_from counts best (x ∷ xs) =
    min_from counts (if ltb (count_of counts x) (count_of counts best) then x else best) xs

-- `for r in range(replicas_per_node)`
unfoldable pub append_replicas : ℕ → String → String → ℕ → Progress → Progress
append_replicas zero model hardware tp s = s
append_replicas (suc n) model hardware tp s = append_replicas n model hardware tp (record s {
  logical_nodes =
      s.logical_nodes
      ++ (record { number = s.node_counter; model_id = model; hardware = hardware; tp_size = tp })
        ∷ [];
  node_counter = s.node_counter + 1;
})

-- The node is given to the workload with the size `tp`.
unfoldable pub assign_node :
    PhysicalNodeConfig → WorkloadConfig × ℕ → Progress → Result PlacementError Progress
assign_node p (wl, tp) s =
    let replicas_per_node = p.gpus_per_node / tp in
    let old = get_or 0 (get wl.model_id s.replica_counts) in
    if nat_beq tp 0
    then raised zero_division
    else ok (
        append_replicas replicas_per_node wl.model_id p.gpu_type tp (record s {
          total_cost = s.total_cost + p.cost;
          replica_counts = put wl.model_id (old + replicas_per_node) s.replica_counts;
        }))

-- What the loop does with a node and its compatible workloads.
unfoldable pub place_node :
    PhysicalNodeConfig → List (WorkloadConfig × ℕ) → Progress → Result PlacementError Progress
place_node p [] s = ok s
place_node p (x ∷ xs) s = assign_node p (min_from s.replica_counts x xs) s

-- `replica_counts = {wl.model_id: 0 for wl in workloads}`
unfoldable pub zero_counts : List WorkloadConfig → Dict String ℕ → Dict String ℕ
zero_counts [] counts = counts
zero_counts (wl ∷ wls) counts = zero_counts wls (put wl.model_id 0 counts)

module _ (a : Analysis) where
  unfoldable pub compatible_workloads :
      PhysicalNodeConfig → List WorkloadConfig → List (WorkloadConfig × ℕ)
  compatible_workloads p [] = []
  compatible_workloads p (wl ∷ wls) =
      let rest = compatible_workloads p wls in
      let tp = min_tp a p wl in if leb tp p.gpus_per_node then (wl, tp) ∷ rest else rest

  unfoldable pub place_nodes :
      List WorkloadConfig → List PhysicalNodeConfig → Progress → Result PlacementError Progress
  place_nodes wls [] s = ok s
  place_nodes wls (p ∷ ps) s =
      place_node p (compatible_workloads p wls) s >>= λ s'. place_nodes wls ps s'

  -- `MaximizeReplicasStrategy.place`; without workloads it returns at once.
  unfoldable pub maximize_replicas :
      List PhysicalNodeConfig → List WorkloadConfig → Result PlacementError Progress
  maximize_replicas nodes [] =
      ok (record { logical_nodes = []; node_counter = 0; total_cost = 0; replica_counts = [] })
  maximize_replicas nodes (wl ∷ wls) =
      place_nodes
        (sort_descending (λ (x : WorkloadConfig). estimate_model_memory a x.model_id) (wl ∷ wls))
        (sort_ascending (λ (p : PhysicalNodeConfig). a.vmemory p.gpu_type) (flatten nodes))
        (record {
          logical_nodes = [];
          node_counter = 0;
          total_cost = 0;
          replica_counts = zero_counts (wl ∷ wls) [];
        })
