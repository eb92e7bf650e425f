-- ===== src/Simulator/Memory/Freeing.antt =====
-- memory.py: `free`, alone and after `allocate`.
use mathlib.Core.List.{Memᴰ}
use mathlib.Core.Path.{subst}
use open_tela.Prelude.{
  ℕ, ◌+◌, ◌-◌, ◌≤◌, ◌≡◌, refl, sym, ap, ◌∙◌, inl, inr, none, false, String, List, [], ◌∷◌, ok,
  arith, ◌==◌, string_eq, ok-injective, ==_self, le→leb,
}
use open_tela.Prelude.Dict.{
  Dict, get, put, pop, get_or, Unique, pop-Unique, get-pop_self, get-pop-none, get-pop_ne,
  get-put_self,
}
use open_tela.Simulator.Request.{GenerationRequest}
use open_tela.Simulator.Memory.Planner.{
  MemoryPlanner, has_allocation, estimate_required_blocks, allocate, free, free_from, total,
  IsValid,
}
use open_tela.Simulator.Memory.Blocks.{total-pop, grown, allocate_cases}

-- All keys of the list are popped.
abbrev popped : Dict String ℕ → List String → Dict String ℕ
popped m [] = m
popped m (id ∷ ids) = popped (pop id m) ids

free_from-popped :
    (m : Dict String ℕ) (freed : ℕ) (ids : List String)
    → ((free_from m freed ids).0 ≡ popped m ids)
      × ((free_from m freed ids).1 + total (popped m ids) ≡ freed + total m)
unfolding free_from
free_from-popped m freed [] = (refl, refl)
free_from-popped m freed (id ∷ ids) =
    let ih = free_from-popped (pop id m) (freed + get_or 0 (get id m)) ids in
    (ih.0, omega (arith, ih.1, total-pop id m))

popped-Unique : (m : Dict String ℕ) (ids : List String) → Unique m → Unique (popped m ids)
popped-Unique m [] u = u
popped-Unique m (id ∷ ids) u = popped-Unique (pop id m) ids (pop-Unique id m u)

get-popped-none :
    (k : String) (m : Dict String ℕ) (ids : List String)
    → get k m ≡ none
    → get k (popped m ids) ≡ none
get-popped-none k m [] h = h
get-popped-none k m (id ∷ ids) h = get-popped-none k (pop id m) ids (get-pop-none id k m h)

get-popped_mem :
    (k : String) (m : Dict String ℕ) (ids : List String)
    → Unique m
    → Memᴰ k ids
    → get k (popped m ids) ≡ none
get-popped_mem k m [] u h = elim h [ ]
get-popped_mem k m (id ∷ ids) u (Memᴰ.head e) =
    get-popped-none k (pop id m) ids
      (subst (λ t. get t (pop id m) ≡ none) (sym e) (get-pop_self id m u))
get-popped_mem k m (id ∷ ids) u (Memᴰ.tail t) =
    get-popped_mem k (pop id m) ids (pop-Unique id m u) t

get-popped_other :
    (k : String) (m : Dict String ℕ) (ids : List String)
    → ((id : String) → Memᴰ id ids → (id == k) ≡ false)
    → get k (popped m ids) ≡ get k m
get-popped_other k m [] h = refl
get-popped_other k m (id ∷ ids) h =
    get-popped_other k (pop id m) ids (λ i t. h i (Memᴰ.tail t))
    ∙ get-pop_ne id k m (h id (Memᴰ.head refl))

-- On a valid planner `free` never raises, whatever identifiers it is given: the result is valid,
-- no freed request keeps a block, and every other request keeps its blocks.
pub free-IsValid :
    (p : MemoryPlanner) (ids : List String)
    → IsValid p
    → (p' : MemoryPlanner) × (free p ids ≡ ok p')
      × IsValid p'
      × ((id : String) → Memᴰ id ids → has_allocation p' id ≡ false)
      × ((k : String)
          → ((id : String) → Memᴰ id ids → (id == k) ≡ false)
          → get k p'.allocation_map ≡ get k p.allocation_map)
unfolding free
free-IsValid p ids v =
    let (same, sums) = free_from-popped p.allocation_map 0 ids in
    let after = free_from p.allocation_map 0 ids in
    let p' : MemoryPlanner = record p {
      allocated_blocks = p.allocated_blocks - after.1;
      allocation_map = after.0;
    } in
    let spare : after.1 ≤ p.allocated_blocks = omega (arith, sums, v.counted) in
    (
      p',
      rw (le→leb _ _ spare),
      record {
        block_pos = v.block_pos;
        keys_unique = rw same (popped-Unique p.allocation_map ids v.keys_unique);
        counted = rw same (omega (arith, sums, v.counted));
        within = omega (arith, v.within);
      },
      λ id t.
          unfold has_allocation in
          rw (same, has_allocation) (rw (get-popped_mem id _ ids v.keys_unique t)),
      λ k other. rw same (get-popped_other k _ ids other),
    )

pop-put_new : (k : String) (n : ℕ) (m : Dict String ℕ) → get k m ≡ none → pop k (put k n m) ≡ m
unfolding get put pop
pop-put_new k n [] h = rw (==_self k)
pop-put_new k n ((j, w) ∷ m) h = ground (arith, pop-put_new k n m)

pop_absent : (k : String) (m : Dict String ℕ) → get k m ≡ none → pop k m ≡ m
unfolding get pop
pop_absent k [] h = refl
pop_absent k ((j, w) ∷ m) h = ground (arith, pop_absent k m)

free_single :
    (q : MemoryPlanner) (id : String) (n : ℕ) (m : Dict String ℕ)
    → get_or 0 (get id q.allocation_map) ≡ n
    → pop id q.allocation_map ≡ m
    → n ≤ q.allocated_blocks
    → free q (id ∷ [])
      ≡ ok (record q { allocated_blocks = q.allocated_blocks - n; allocation_map = m })
unfolding free free_from
free_single q id n m e o h =
    let e' : 0 + get_or 0 (get id q.allocation_map) ≡ n = omega arith in
    rw (e', o) (rw (le→leb _ _ h))

absent-get :
    (p : MemoryPlanner) (id : String) → has_allocation p id ≡ false → get id p.allocation_map ≡ none
unfolding has_allocation
absent-get p id h = ground arith

-- Where a request without blocks is allocated, freeing it right after restores the planner, the
-- order of its map included.
pub free-allocate :
    (p : MemoryPlanner) (r : GenerationRequest) {p' : MemoryPlanner}
    → has_allocation p r.req_id ≡ false
    → allocate p r ≡ ok p'
    → free p' (r.req_id ∷ []) ≡ ok p
unfolding grown
free-allocate p r {p'} h a =
    let id = r.req_id in
    let m = p.allocation_map in
    let n = estimate_required_blocks p r in
    let new : get id m ≡ none = absent-get p id h in
    elim (allocate_cases p r) [
      | inl (z, e) ↦ rw (ok-injective (sym a ∙ e)) (
          free_single p id 0 m (rw new refl) (pop_absent id m new) (omega arith)
          ∙ ap (λ t. ok (record p { allocated_blocks = t })) (omega arith))
      | inr (inl (fits, e)) ↦ rw (ok-injective (sym a ∙ e)) (
          free_single (grown p r n) id n m
            (rw (get-put_self id (get_or 0 (get id m) + n) m) (rw new (omega arith)))
            (pop-put_new id (get_or 0 (get id m) + n) m new) (omega arith)
          ∙ ap (λ t. ok (record p { allocated_blocks = t })) (omega arith))
      | inr (inr (over, e)) ↦ cc
    ]
