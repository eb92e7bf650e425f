-- ===== src/Simulator/Memory/Blocks.antt =====
-- memory.py: admission and allocation.
use open_tela.Prelude.{
  ℕ, ◌+◌, ◌≤◌, ◌<◌, ◌≡◌, refl, ◌⊎◌, inl, inr, true, String, [], ◌∷◌, ok, raised, arith, sym, ◌∙◌,
  ok-injective, string_eq, nat_eq,
}
use mathlib.Core.Path.{subst}
use open_tela.Prelude.Dict.{Dict, get, put, pop, get_or, put-Unique}
use open_tela.Simulator.Request.{GenerationRequest}
use open_tela.Simulator.Memory.Sizes.{exceeding_memory_limit}
use open_tela.Simulator.Memory.Planner.{
  MemoryPlanner, estimate_required_blocks, alloc_limit, can_allocate_request, allocate, total,
  IsValid,
}

pub total-put :
    (k : String) (n : ℕ) (m : Dict String ℕ) → total (put k n m) + get_or 0 (get k m) ≡ total m + n
unfolding get put
total-put k n [] = omega arith
total-put k n ((j, w) ∷ m) = ground (arith, total-put k n m)

pub total-pop : (k : String) (m : Dict String ℕ) → total (pop k m) + get_or 0 (get k m) ≡ total m
unfolding get pop
total-pop k [] = refl
total-pop k ((j, w) ∷ m) = ground (arith, total-pop k m)

-- The planner that `allocate` leaves where it does not raise.
unfoldable pub grown : MemoryPlanner → GenerationRequest → ℕ → MemoryPlanner
grown p r n = record p {
  allocated_blocks = p.allocated_blocks + n;
  allocation_map = put r.req_id (get_or 0 (get r.req_id p.allocation_map) + n) p.allocation_map;
}

module _ (p : MemoryPlanner) (r : GenerationRequest) where
  pub allocate_cases :
      (estimate_required_blocks p r ≡ 0) × (allocate p r ≡ ok p)
      ⊎ (p.allocated_blocks + estimate_required_blocks p r ≤ p.max_num_blocks)
        × (allocate p r ≡ ok (grown p r (estimate_required_blocks p r)))
      ⊎ (p.max_num_blocks < p.allocated_blocks + estimate_required_blocks p r)
        × (allocate p r ≡ raised exceeding_memory_limit)
  unfolding allocate grown
  allocate_cases = ground arith

  grown-IsValid :
      (n : ℕ) → IsValid p → p.allocated_blocks + n ≤ p.max_num_blocks → IsValid (grown p r n)
  unfolding grown
  grown-IsValid n v h = record {
    block_pos = v.block_pos;
    keys_unique = put-Unique r.req_id _ p.allocation_map v.keys_unique;
    counted = omega (
      arith,
      v.counted,
      total-put r.req_id (get_or 0 (get r.req_id p.allocation_map) + n) p.allocation_map,
    );
    within = h;
  }

  -- On a valid planner with at most 95 percent of its blocks in use, a request that passes the
  -- admission test gets its blocks: the assertion holds, the planner stays valid and within the 95
  -- percent, and exactly the estimated number of blocks is added.
  pub allocate-can_allocate :
      IsValid p
      → p.allocated_blocks ≤ alloc_limit p
      → can_allocate_request p r ≡ true
      → (p' : MemoryPlanner) × (allocate p r ≡ ok p')
        × IsValid p'
        × (p'.allocated_blocks ≤ alloc_limit p')
        × (p'.allocated_blocks ≡ p.allocated_blocks + estimate_required_blocks p r)
  unfolding can_allocate_request
  allocate-can_allocate v low admitted = elim allocate_cases [
    | inl (z, e) ↦ (p, e, v, low, omega arith)
    | inr (inl (fits, e)) ↦ (
      grown p r (estimate_required_blocks p r),
      e,
      grown-IsValid _ v fits,
      unfold grown in ground arith,
      unfold grown in refl,
    )
    | inr (inr (over, e)) ↦ absurd (ground arith)
  ]

  -- An allocation that returns keeps a valid planner valid, also one that the admission test was
  -- not asked about.
  pub allocate-IsValid : {p' : MemoryPlanner} → IsValid p → allocate p r ≡ ok p' → IsValid p'
  allocate-IsValid v h = elim allocate_cases [
    | inl (z, e) ↦ subst IsValid (ok-injective (sym e ∙ h)) v
    | inr (inl (fits, e)) ↦ subst IsValid (ok-injective (sym e ∙ h)) (grown-IsValid _ v fits)
    | inr (inr (over, e)) ↦ cc
  ]
