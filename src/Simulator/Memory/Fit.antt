-- ===== src/Simulator/Memory/Fit.antt =====
-- memory.py: how many blocks fit beside the weights, and how far a request's blocks reach.
use open_tela.Prelude.{
  ℕ, ◌+◌, ◌*◌, ◌≤◌, ◌<◌, ◌≡◌, sym, ap, ◌∙◌, ◌⊎◌, inl, inr, none, some, ok, raised, Result, arith,
  string_eq, nat_eq, ok-injective,
}
use open_tela.Prelude.Dict.{get, get_or, get-put_self}
use open_tela.Simulator.Request.{GenerationRequest}
use open_tela.Simulator.Memory.Sizes.{
  PlannerConfig, MemoryError, attribute_error, shards, shard_memory, get_weights_memory,
}
use open_tela.Simulator.Memory.Planner.{MemoryPlanner, estimate_required_blocks, allocate, IsValid}
use open_tela.Simulator.Memory.Blocks.{grown, allocate_cases}

-- What `get_max_num_blocks` does: it raises, or it returns a number of blocks.
abbrev pub BlocksOutcome : PlannerConfig → Result MemoryError ℕ → Type 0
BlocksOutcome c r =
    (r ≡ raised attribute_error) × ((c.tp_size ≡ none) ⊎ (c.block_memory_size_per_shard ≡ none))
    ⊎ (n : ℕ) × (r ≡ ok n)
      × ((n ≡ 0)
            × ((shard_memory c ≤ get_weights_memory c) ⊎ (c.block_memory_size_per_shard ≡ some 0))
          ⊎ (size : ℕ) × (c.block_memory_size_per_shard ≡ some size)
            × (get_weights_memory c + n * (size * shards c) ≤ shard_memory c)
            × (shard_memory c < get_weights_memory c + (n + 1) * (size * shards c)))

estimate_some :
    (p : MemoryPlanner) (r : GenerationRequest) (n : ℕ)
    → get r.req_id p.allocation_map ≡ some n
    → (estimate_required_blocks p r ≡ 0) × (r.generated_tokens ≤ n * p.config.block_size)
      ⊎ (estimate_required_blocks p r ≡ 1) × (n * p.config.block_size < r.generated_tokens)
unfolding estimate_required_blocks
estimate_some p r n has = ground arith

-- On a valid planner, a request that has blocks, and whose generated tokens reach at most one
-- beyond them, as after one decode step, has blocks for all of them after an allocation that
-- returns, and at most one block more than before.
pub allocate_covers :
    (p : MemoryPlanner) (r : GenerationRequest) (n : ℕ) {p' : MemoryPlanner}
    → IsValid p
    → get r.req_id p.allocation_map ≡ some n
    → r.generated_tokens ≤ n * p.config.block_size + 1
    → allocate p r ≡ ok p'
    → (n' : ℕ) × (get r.req_id p'.allocation_map ≡ some n')
      × (r.generated_tokens ≤ n' * p.config.block_size)
      × (n' ≤ n + 1)
unfolding grown
allocate_covers p r n {p'} v has near a =
    let k = estimate_required_blocks p r in
    let before = get_or 0 (get r.req_id p.allocation_map) in
    let old : before ≡ n = rw has in
    elim (allocate_cases p r) [
      | inl (z, e) ↦ (
        n,
        rw (ok-injective (sym a ∙ e)) has,
        omega (arith, estimate_some p r n has),
        omega arith,
      )
      | inr (inl (fits, e)) ↦ (
        n + k,
        rw (ok-injective (sym a ∙ e))
            (get-put_self r.req_id (before + k) p.allocation_map ∙ ap (λ t. some (t + k)) old),
        covers (estimate_some p r n has),
        omega (arith, estimate_some p r n has),
      )
      | inr (inr (over, e)) ↦ cc
    ]
  where
    covers :
        (estimate_required_blocks p r ≡ 0) × (r.generated_tokens ≤ n * p.config.block_size)
          ⊎ (estimate_required_blocks p r ≡ 1) × (n * p.config.block_size < r.generated_tokens)
        → r.generated_tokens ≤ (n + estimate_required_blocks p r) * p.config.block_size
    covers (inl (z, h)) = rw z (omega arith)
    covers (inr (o, h)) = rw o (grind (arith, v.block_pos))
