-- ===== src/Simulator/Examples/Memory.antt =====
-- config.py, request.py and memory.py: tests, and the theorems applied to small inputs.
use open_tela.Simulator.Examples.Samples.{
  small_config, planner, request, held, long_request, longer,
}
use mathlib.Core.List.{Memᴰ}
use open_tela.Prelude.{
  ℕ, ◌+◌, ◌*◌, ◌≤◌, ◌≡◌, refl, ◌↔◌, true, false, [], ◌∷◌, none, some, String, ok, raised, arith,
  ◌==◌, string_eq,
}
use open_tela.Prelude.Dict.{get, put}
use open_tela.Simulator.Config.{
  absent, pos, negsuc, config, sizes, normalize_parallel_config, at_least_one, IsPositive,
}
use open_tela.Simulator.Config.Normal.{normalize_parallel_config-IsPositive}
use open_tela.Simulator.Request.{decode}
use open_tela.Simulator.Request.Completion.{decodes, decode_complete}
use open_tela.Simulator.Memory.Sizes.{
  attribute_error, value_error, get_max_num_blocks, get_weights_memory,
  get_weights_memory_per_shard, blocks_of_size, shards, shard_memory,
}
use open_tela.Simulator.Memory.Planner.{
  MemoryPlanner, IsValid, new_planner, estimate_required_blocks, can_allocate_request, alloc_limit,
  allocate, free, has_allocation,
}
use open_tela.Simulator.Memory.Blocks.{allocate-can_allocate, allocate-IsValid}
use open_tela.Simulator.Memory.Freeing.{free-IsValid, free-allocate}
use open_tela.Simulator.Memory.Fit.{allocate_covers}

get_max_num_blocks_test : get_max_num_blocks small_config ≡ ok planner.max_num_blocks
unfolding get_max_num_blocks get_weights_memory_per_shard blocks_of_size get_weights_memory
    shard_memory shards
get_max_num_blocks_test = refl

-- Every new planner raises, with a configuration of the model or without.
new_planner_test :
    new_planner small_config.params (some small_config.config) absent 100 1 1 4
    ≡ raised attribute_error
unfolding new_planner normalize_parallel_config get_max_num_blocks get_weights_memory_per_shard
new_planner_test = refl

no_config_test : new_planner small_config.params none absent 100 1 1 4 ≡ raised value_error
unfolding new_planner normalize_parallel_config
no_config_test = refl

planner-IsValid : IsValid planner
planner-IsValid = record {
  block_pos = omega arith;
  keys_unique = tt;
  counted = refl;
  within = omega arith;
}

held-IsValid : IsValid held
unfolding get
held-IsValid = record {
  block_pos = omega arith;
  keys_unique = (refl, tt);
  counted = refl;
  within = omega arith;
}

allocate_test : allocate planner request ≡ ok held
unfolding allocate estimate_required_blocks get put
allocate_test = refl

decode_complete_example : (decode (decodes 2 request)).1 ≡ true ↔ 0 + 2 + 1 ≡ 3
decode_complete_example = decode_complete 2 request

allocate-can_allocate_example :
    (p' : MemoryPlanner) × (allocate planner request ≡ ok p')
    × IsValid p'
    × (p'.allocated_blocks ≤ alloc_limit p')
    × (p'.allocated_blocks ≡ 0 + estimate_required_blocks planner request)
unfolding can_allocate_request estimate_required_blocks get
allocate-can_allocate_example =
    allocate-can_allocate planner request planner-IsValid (omega arith) refl

allocate-IsValid_example : IsValid held
unfolding allocate estimate_required_blocks get put
allocate-IsValid_example = allocate-IsValid planner request planner-IsValid refl

free-IsValid_example :
    (p' : MemoryPlanner) × (free held ("a" ∷ []) ≡ ok p')
    × IsValid p'
    × ((id : String) → Memᴰ id ("a" ∷ []) → has_allocation p' id ≡ false)
    × ((k : String)
        → ((id : String) → Memᴰ id ("a" ∷ []) → (id == k) ≡ false)
        → get k p'.allocation_map ≡ get k held.allocation_map)
free-IsValid_example = free-IsValid held ("a" ∷ []) held-IsValid

free-allocate_example : free held ("a" ∷ []) ≡ ok planner
unfolding allocate estimate_required_blocks has_allocation get put
free-allocate_example = free-allocate planner request refl refl

allocate_covers_example :
    (n' : ℕ) × (get "a" longer.allocation_map ≡ some n') × (9 ≤ n' * 4) × (n' ≤ 2 + 1)
unfolding allocate estimate_required_blocks get put
allocate_covers_example =
    allocate_covers held long_request 2 {p' = longer} held-IsValid refl (omega arith) refl

normalize_parallel_config-IsPositive_example :
    IsPositive (pos 4)
    × IsPositive (pos 1)
    × (normalize_parallel_config
          (config (record { tensor_parallel_size = pos 4; pipeline_parallel_size = pos 1 }))
        ≡ some (record { tensor_parallel_size = pos 4; pipeline_parallel_size = pos 1 }))
unfolding normalize_parallel_config at_least_one
normalize_parallel_config-IsPositive_example =
    normalize_parallel_config-IsPositive (sizes (some (pos 4)) (some (negsuc 2)))
      (record { tensor_parallel_size = pos 4; pipeline_parallel_size = pos 1 }) refl
