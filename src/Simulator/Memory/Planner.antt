-- ===== src/Simulator/Memory/Planner.antt =====
-- memory.py: the planner's blocks, and the operations on them.
use open_tela.Prelude.{
  ℕ, ◌+◌, ◌-◌, ◌*◌, ◌/◌, ◌≤◌, ◌<◌, ◌≡◌, none, some, Bool, true, false, leb, if◌then◌else◌, ◌==◌,
  nat_eq, string_eq, String, List, [], ◌∷◌, Result, ok, raised, ceil_div, Option, ◌>>=◌,
}
use open_tela.Prelude.Dict.{Dict, get, put, pop, get_or, Unique}
use open_tela.Simulator.Config.{ParallelArgument, normalize_parallel_config}
use open_tela.Simulator.Request.{GenerationRequest}
use open_tela.Simulator.Memory.Sizes.{
  ModelParams, ModelConfig, PlannerConfig, MemoryError, exceeding_memory_limit,
  negative_allocated_blocks, attribute_error, value_error, type_error, get_max_num_blocks,
}

pub record MemoryPlanner : Type 0 where
  pub config : PlannerConfig
  pub max_num_blocks : ℕ
  pub allocated_blocks : ℕ
  pub allocation_map : Dict String ℕ

abbrev pub planner_with : PlannerConfig → ℕ → MemoryPlanner
planner_with c n = record {
  config = c;
  max_num_blocks = n;
  allocated_blocks = 0;
  allocation_map = [];
}

-- The object that the constructor has assigned when it asks for the number of blocks. It has neither
-- `_tp_size` nor `_block_memory_size_per_shard`.
abbrev pub constructed :
    ModelParams → ModelConfig → (vmemory w_bit kv_bit block_size : ℕ) → PlannerConfig
constructed params config vmemory w_bit kv_bit block_size = record {
  params = params;
  config = config;
  vmemory = vmemory;
  w_bit = w_bit;
  kv_bit = kv_bit;
  block_size = block_size;
  tp_size = none;
  block_memory_size_per_shard = none;
}

abbrev pub with_config :
    ModelParams
    → (vmemory w_bit kv_bit block_size : ℕ) → Option ModelConfig
    → Result MemoryError MemoryPlanner
with_config params vmemory w_bit kv_bit block_size none = raised value_error
with_config params vmemory w_bit kv_bit block_size (some config) =
    let c = constructed params config vmemory w_bit kv_bit block_size in
    get_max_num_blocks c >>= λ n. ok (planner_with c n)

-- `MemoryPlanner.__init__`: the parallel settings are normalized first, and a configuration of the
-- model is required last.
unfoldable pub new_planner :
    ModelParams
    → Option ModelConfig
    → ParallelArgument
    → (vmemory w_bit kv_bit block_size : ℕ) → Result MemoryError MemoryPlanner
new_planner params config parallel vmemory w_bit kv_bit block_size =
    elim (normalize_parallel_config parallel) [
      | none ↦ raised type_error
      | some sizes ↦ with_config params vmemory w_bit kv_bit block_size config
    ]

unfoldable pub has_allocation : MemoryPlanner → String → Bool
has_allocation p id = elim (get id p.allocation_map) [ none ↦ false | some _ ↦ true ]

-- The blocks that the request lacks.
unfoldable pub estimate_required_blocks : MemoryPlanner → GenerationRequest → ℕ
estimate_required_blocks p r = elim (get r.req_id p.allocation_map) [
  | none ↦ ceil_div r.input_length p.config.block_size
  | some n ↦ if r.generated_tokens - n * p.config.block_size == 0 then 0 else 1
]

-- `math.floor(self._max_num_blocks * 0.95)`
abbrev pub alloc_limit : MemoryPlanner → ℕ
alloc_limit p = p.max_num_blocks * 95 / 100

unfoldable pub can_allocate_request : MemoryPlanner → GenerationRequest → Bool
unfolding estimate_required_blocks
can_allocate_request p r =
    let additional_blocks = estimate_required_blocks p r in
    if p.max_num_blocks == 0
    then false
    else if additional_blocks == 0
    then true
    else if leb (alloc_limit p) 0
    then false
    else leb (p.allocated_blocks + additional_blocks) (alloc_limit p)

-- `_allocate_blocks`; the assertion stands behind the two writes.
allocate_blocks : MemoryPlanner → String → ℕ → Result MemoryError MemoryPlanner
allocate_blocks p id n =
    let p' = record p {
      allocated_blocks = p.allocated_blocks + n;
      allocation_map = put id (get_or 0 (get id p.allocation_map) + n) p.allocation_map;
    } in
    if n == 0
    then ok p
    else if leb p'.allocated_blocks p'.max_num_blocks
    then ok p'
    else raised exceeding_memory_limit

unfoldable pub allocate : MemoryPlanner → GenerationRequest → Result MemoryError MemoryPlanner
unfolding allocate_blocks estimate_required_blocks
allocate p r =
    let additional_blocks = estimate_required_blocks p r in
    if additional_blocks == 0 then ok p else allocate_blocks p r.req_id additional_blocks

-- The loop of `free`: the map that is left, and the blocks that were taken out of it.
unfoldable pub free_from : Dict String ℕ → ℕ → List String → Dict String ℕ × ℕ
free_from m freed [] = (m, freed)
free_from m freed (id ∷ ids) = free_from (pop id m) (freed + get_or 0 (get id m)) ids

-- The count may pass zero on the way; the assertion reads it after the loop.
unfoldable pub free : MemoryPlanner → List String → Result MemoryError MemoryPlanner
unfolding free_from
free p ids =
    let (m, freed) = free_from p.allocation_map 0 ids in
    if leb freed p.allocated_blocks
    then ok (record p { allocated_blocks = p.allocated_blocks - freed; allocation_map = m })
    else raised negative_allocated_blocks

-- `usage`: the used and the total blocks.
unfoldable pub usage : MemoryPlanner → ℕ × ℕ
usage p = (p.allocated_blocks, p.max_num_blocks)

-- `n * self._block_memory_size_per_shard`, in bits.
abbrev pub times_block_size : ℕ → Option ℕ → Result MemoryError ℕ
times_block_size n none = raised attribute_error
times_block_size n (some size) = ok (n * size)

-- The KV memory of one shard, in bits: in use, at capacity, and what a request would add.
unfoldable pub get_allocated_kv_memory_per_shard : MemoryPlanner → Result MemoryError ℕ
get_allocated_kv_memory_per_shard p =
    times_block_size p.allocated_blocks p.config.block_memory_size_per_shard

unfoldable pub get_total_kv_memory_capacity_per_shard : MemoryPlanner → Result MemoryError ℕ
get_total_kv_memory_capacity_per_shard p =
    times_block_size p.max_num_blocks p.config.block_memory_size_per_shard

unfoldable pub estimate_additional_kv_memory_per_shard :
    MemoryPlanner → GenerationRequest → Result MemoryError ℕ
estimate_additional_kv_memory_per_shard p r =
    times_block_size (estimate_required_blocks p r) p.config.block_memory_size_per_shard

-- All blocks of the map.
abbrev pub total : Dict String ℕ → ℕ
total [] = 0
total ((id, n) ∷ m) = n + total m

-- What holds of a planner between two calls.
pub record IsValid (p : MemoryPlanner) : Type 0 where
  pub block_pos : 0 < p.config.block_size
  pub keys_unique : Unique p.allocation_map
  pub counted : p.allocated_blocks ≡ total p.allocation_map
  pub within : p.allocated_blocks ≤ p.max_num_blocks
