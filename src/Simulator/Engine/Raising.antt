-- ===== src/Simulator/Engine/Raising.antt =====
-- engine.py: what the parts of `step` raise of the memory planner.
use open_tela.Prelude.{
  raised-injective, sym, leb, true, false, Bool, Option-cases, ℕ, ◌≡◌, ◌⊎◌, refl, ◌∙◌, List, [],
  ◌∷◌, Option, none, some, String, Result, ok, raised, ◌>>=◌, arith, Bool-cases, inl, inr, nat_eq,
}
use open_tela.Simulator.Memory.Sizes.{
  MemoryError, exceeding_memory_limit, negative_allocated_blocks, attribute_error, value_error,
  type_error,
}
use open_tela.Simulator.Memory.Blocks.{allocate_cases}
use open_tela.Simulator.Memory.Planner.{
  MemoryPlanner, has_allocation, allocate, free, free_from, times_block_size,
  get_allocated_kv_memory_per_shard, estimate_additional_kv_memory_per_shard,
}
use open_tela.Simulator.Request
use open_tela.Simulator.Request.{GenerationRequest}
use mathlib.Core.Path.{subst}
use open_tela.Simulator.Engine.State.{ServingEngine, EngineError, memory_error, emit_event, Store}
use open_tela.Simulator.Engine.Loading.{
  refresh_memory_usage, lift_memory, fits_with_margin, load_model, reserved,
  can_accommodate_request,
}
use open_tela.Simulator.Engine.Decoding.{Decoded, decode_one, decode_all, free_completed}
use open_tela.Simulator.Engine.Stepping.{start_admitted, start_head, start_next_prefill}

-- What a step may raise of the planner, where the planner's attribute for the size of a block is `o`:
-- an assertion, or AttributeError if it lacks the attribute.
abbrev pub Raises : Option ℕ → MemoryError → Type 0
Raises o exceeding_memory_limit = Unit
Raises o negative_allocated_blocks = Unit
Raises o attribute_error = (o ≡ none)
Raises o value_error = ⊥
Raises o type_error = ⊥

abbrev RaisesOnly : {A : Type 0} → Option ℕ → Result MemoryError A → Type 0
RaisesOnly o r = (m : MemoryError) → r ≡ raised m → Raises o m

-- The call raises nothing else.
abbrev pub OnlyMemory : {A : Type 0} → Option ℕ → Result EngineError A → Type 0
OnlyMemory o r =
    (x : EngineError) → r ≡ raised x → (m : MemoryError) × (x ≡ memory_error m) × Raises o m

pub ok-OnlyMemory :
    {A : Type 0} (o : Option ℕ) (r : Result EngineError A) (a : A) → r ≡ ok a → OnlyMemory o r
ok-OnlyMemory o r a e x h = cc

pub bind-OnlyMemory :
    {A B : Type 0} (o : Option ℕ) (r : Result EngineError A) (f : A → Result EngineError B)
    → OnlyMemory o r
    → ((a : A) → r ≡ ok a → OnlyMemory o (f a))
    → OnlyMemory o (r >>= f)
bind-OnlyMemory o (ok a) f first next x h = next a refl x h
bind-OnlyMemory o (raised y) f first next x h = first x cc

allocate-RaisesOnly :
    (o : Option ℕ) (p : MemoryPlanner) (r : GenerationRequest) → RaisesOnly o (allocate p r)
allocate-RaisesOnly o p r m h = elim (allocate_cases p r) [
  | inl (_, e) ↦ cc
  | inr (inl (_, e)) ↦ cc
  | inr (inr (_, e)) ↦ subst (Raises o) (raised-injective (sym e ∙ h)) tt
]

free-RaisesOnly : (o : Option ℕ) (p : MemoryPlanner) (ids : List String) → RaisesOnly o (free p ids)
unfolding free
free-RaisesOnly o p ids m h =
    elim (Bool-cases (leb (free_from p.allocation_map 0 ids).1 p.allocated_blocks)) [
      | inl t ↦ cc (rw t at h)
      | inr f ↦ subst (Raises o) (raised-injective (rw f at h)) tt
    ]

times_block_size-RaisesOnly : (n : ℕ) (o : Option ℕ) → RaisesOnly o (times_block_size n o)
times_block_size-RaisesOnly n none m h = subst (Raises none) (raised-injective h) refl
times_block_size-RaisesOnly n (some size) m h = cc

lift_memory-OnlyMemory :
    {A : Type 0} (o : Option ℕ) (r : Result MemoryError A)
    → RaisesOnly o r
    → OnlyMemory o (lift_memory r)
lift_memory-OnlyMemory o (ok a) only x h = cc
lift_memory-OnlyMemory o (raised m) only x h = (m, cc, only m refl)

reserved-OnlyMemory :
    (o : Option ℕ) (e : ServingEngine) (r : Result MemoryError MemoryPlanner)
    → RaisesOnly o r
    → OnlyMemory o (reserved e r)
reserved-OnlyMemory o e (ok p) only x h = cc
reserved-OnlyMemory o e (raised m) only x h = (m, cc, only m refl)

-- The attribute of the engine's planner.
abbrev pub block_size_of : ServingEngine → Option ℕ
block_size_of e = e.memory_planner.config.block_memory_size_per_shard

fits_with_margin-RaisesOnly :
    (e : ServingEngine) (r : GenerationRequest)
    → RaisesOnly (block_size_of e) (fits_with_margin e r)
unfolding fits_with_margin get_allocated_kv_memory_per_shard estimate_additional_kv_memory_per_shard
fits_with_margin-RaisesOnly e r m h = elim (Option-cases (block_size_of e)) [
  | inl lacks ↦ subst (Raises (block_size_of e)) (raised-injective (simp lacks at h)) lacks
  | inr (size, has) ↦ cc (simp has at h)
]

load_model-planner : (e : ServingEngine) → (load_model e).1.memory_planner ≡ e.memory_planner
unfolding load_model refresh_memory_usage emit_event
load_model-planner e = ground arith

answer_cases :
    (e : ServingEngine) (r : GenerationRequest)
    → ((can_accommodate_request e r).0 ≡ ok false)
      ⊎ ((can_accommodate_request e r).0 ≡ fits_with_margin (load_model e).1 r)
unfolding can_accommodate_request
answer_cases e r = ground arith

can_accommodate-RaisesOnly :
    (e : ServingEngine) (r : GenerationRequest)
    → RaisesOnly (block_size_of e) (can_accommodate_request e r).0
unfolding can_accommodate_request
can_accommodate-RaisesOnly e r m h =
    let loaded = (load_model e).1 in
    let same : loaded.memory_planner ≡ e.memory_planner = load_model-planner e in
    elim (answer_cases e r) [
      | inl refused ↦ cc
      | inr asked ↦
          subst (λ p. Raises p.config.block_memory_size_per_shard m) same
            (fits_with_margin-RaisesOnly loaded r m (sym asked ∙ h))
    ]

start_admitted-OnlyMemory :
    (o : Option ℕ) (h : ℕ) (queue : List ℕ) (s : Store) (e : ServingEngine) (fits : Bool)
    → OnlyMemory o (start_admitted h queue s e fits)
start_admitted-OnlyMemory o h queue s e false = λ x k. cc
start_admitted-OnlyMemory o h queue s e true =
    bind-OnlyMemory o (reserved e (allocate e.memory_planner (s h))) _
      (reserved-OnlyMemory o e (allocate e.memory_planner (s h))
        (allocate-RaisesOnly o e.memory_planner (s h)))
      (λ a _ x k. cc)

start_head-OnlyMemory :
    (h : ℕ) (queue : List ℕ) (e : ServingEngine) (s : Store)
    → OnlyMemory (block_size_of e) (start_head h queue (e, s))
unfolding start_head
start_head-OnlyMemory h queue e s =
    let (answer, e') = can_accommodate_request e (s h) in
    elim (Bool-cases (has_allocation e.memory_planner (s h).req_id)) [
      | inl t ↦ rw t (λ x k. cc)
      | inr f ↦ rw f (
          bind-OnlyMemory (block_size_of e) (lift_memory answer) _
            (lift_memory-OnlyMemory (block_size_of e) answer (can_accommodate-RaisesOnly e (s h)))
            (λ fits _. start_admitted-OnlyMemory (block_size_of e) h queue s e' fits))
    ]

pub start_next_prefill-OnlyMemory :
    (current : Option ℕ) (queue : List ℕ) (e : ServingEngine) (s : Store)
    → OnlyMemory (block_size_of e) (start_next_prefill current queue (e, s))
unfolding start_next_prefill
start_next_prefill-OnlyMemory none [] e s x k = cc
start_next_prefill-OnlyMemory none (h ∷ queue) e s x k = start_head-OnlyMemory h queue e s x k
start_next_prefill-OnlyMemory (some h) queue e s x k = cc

pub decode_all-OnlyMemory :
    (o : Option ℕ) (hs : List ℕ) (d : Decoded) → OnlyMemory o (decode_all hs d)
unfolding decode_all decode_one
decode_all-OnlyMemory o [] d = λ x k. cc
decode_all-OnlyMemory o (h ∷ hs) d =
    let r = (Request.decode (d.store h)).0 in
    bind-OnlyMemory o (decode_one h d) (λ d'. decode_all hs d')
      (bind-OnlyMemory o (lift_memory (allocate d.planner r)) _
        (lift_memory-OnlyMemory o (allocate d.planner r) (allocate-RaisesOnly o d.planner r))
        (λ a _ x k. cc))
      (λ d' _. decode_all-OnlyMemory o hs d')

pub free_completed-OnlyMemory :
    (o : Option ℕ) (ids : List String) (e : ServingEngine) → OnlyMemory o (free_completed ids e)
free_completed-OnlyMemory o [] e = λ x k. cc
free_completed-OnlyMemory o (id ∷ ids) e =
    bind-OnlyMemory o (lift_memory (free e.memory_planner (id ∷ ids))) _
      (lift_memory-OnlyMemory o (free e.memory_planner (id ∷ ids))
        (free-RaisesOnly o e.memory_planner (id ∷ ids)))
      (λ a _ x k. cc)
