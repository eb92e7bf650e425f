-- ===== src/Simulator/Engine/Failing.antt =====
-- engine.py: the exceptions of `step`.
use open_tela.Prelude.{
  ℕ, ◌≤◌, ◌≡◌, refl, ap, ◌∙◌, List, [], ◌∷◌, Option, none, some, ok, raised, sum_by, arith,
  Bool-cases, inl, inr, nat_eq, map,
}
use open_tela.Prelude.Sets.{one_at, remove-some, sum_by-remove}
use open_tela.Simulator.Memory.Sizes.{MemoryError}
use mathlib.Core.Path.{subst}
use open_tela.Simulator.Events.{Event}
use open_tela.Simulator.Engine.State.{
  ServingEngine, EngineError, memory_error, set_current_time, Store, Batch, is_empty,
}
use open_tela.Simulator.Engine.Decoding.{
  Decoded, decode_all, complete_all, complete_one, free_completed, after_decoding, decode_end,
  process_decode_batch,
}
use open_tela.Simulator.Engine.Stepping.{
  start_next_prefill, process_prefill, batch_up, decode_batch, clock_to, step,
}
use open_tela.Simulator.Engine.Lanes.{lanes, batch_sum, Good, Flows-trans, refresh-lanes}
use open_tela.Simulator.Engine.PrefillFlow.{
  one_at_self, start_next_prefill-Flows, process_prefill-Flows,
}
use open_tela.Simulator.Engine.DecodeFlow.{Lists}
use open_tela.Simulator.Engine.CompleteFlow.{decode_all-complete, complete_all_step}
use open_tela.Simulator.Engine.Forming.{batch_up_total}
use open_tela.Simulator.Engine.StepFlow.{batch_up-Flows, clock_to-Flows}
use open_tela.Simulator.Engine.Raising.{
  Raises, OnlyMemory, block_size_of, ok-OnlyMemory, bind-OnlyMemory, start_next_prefill-OnlyMemory,
  decode_all-OnlyMemory, free_completed-OnlyMemory,
}

-- The completed requests are active, so that each is found.
complete_all_total :
    (s : Store) (t : ℕ) (hs : List ℕ) (x : ServingEngine × Batch × List Event)
    → ((k : ℕ) → sum_by (one_at k) hs ≤ sum_by (one_at k) (x.0).active_requests)
    → (y : ServingEngine × Batch × List Event) × (complete_all s t hs x ≡ ok y)
complete_all_total s t [] x le = (x, unfold complete_all in refl)
complete_all_total s t (h ∷ hs) x le =
    let (active, found) =
      remove-some h (x.0).active_requests (omega (arith, le h, one_at_self h)) in
    let (y, done) =
      complete_all_total s t hs (complete_one s t h active x)
        (λ k. omega (arith, le k, sum_by-remove (one_at k) h (x.0).active_requests active found)) in
    (y, complete_all_step s t h hs active x found ∙ done)

-- The requests of the batch are active.
batch-active :
    (e : ServingEngine) (b : Batch) (k : ℕ)
    → Good (lanes e)
    → e.current_decode_batch ≡ some b
    → sum_by (one_at k) b.requests ≤ sum_by (one_at k) e.active_requests
batch-active e b k g has = omega (arith, g.working (one_at k), ap (batch_sum (one_at k)) has)

process_decode_batch-OnlyMemory :
    (attribute : Option ℕ) (decode_time : ℕ → ℕ → ℕ) (b : Batch) (e : ServingEngine) (s : Store)
    → Good (lanes e)
    → e.current_decode_batch ≡ some b
    → OnlyMemory attribute (process_decode_batch decode_time b (e, s))
unfolding process_decode_batch
process_decode_batch-OnlyMemory attribute decode_time b e s g has =
    let first : Decoded = record { store = s; planner = e.memory_planner; complete = [] } in
    bind-OnlyMemory attribute (decode_all b.requests first) _
      (decode_all-OnlyMemory attribute b.requests first)
      (λ d decoded.
        let start = after_decoding decode_time b (e, s) d.planner in
        let end_at = decode_end decode_time b (e, s) in
        let same : lanes start ≡ lanes e = refresh-lanes _ in
        let (y, done) =
          complete_all_total d.store end_at d.complete (start, b, [])
            (λ k. omega (
              arith,
              decode_all-complete (one_at k) b.requests first d decoded,
              batch-active e b k g has,
              ap (λ l. sum_by (one_at k) l.active) same,
            )) in
        bind-OnlyMemory attribute (complete_all d.store end_at d.complete (start, b, [])) _
          (ok-OnlyMemory attribute _ y done)
          (λ x _.
            bind-OnlyMemory attribute
              (free_completed (map (λ h. (d.store h).req_id) d.complete)
                (record (x.0) { current_decode_batch = some x.1 }))
              _ (free_completed-OnlyMemory attribute _ _) (λ a _ z k. cc)))

decode_batch-OnlyMemory :
    (attribute : Option ℕ) (decode_time : ℕ → ℕ → ℕ) (o : Option Batch) (e : ServingEngine)
    (s : Store)
    → Good (lanes e)
    → e.current_decode_batch ≡ o
    → OnlyMemory attribute (decode_batch decode_time o (e, s))
unfolding decode_batch
decode_batch-OnlyMemory attribute decode_time none e s g has = λ x k. cc
decode_batch-OnlyMemory attribute decode_time (some b) e s g has = elim (Bool-cases (is_empty b)) [
  | inl t ↦ rw t (λ x k. cc)
  | inr f ↦ rw f (process_decode_batch-OnlyMemory attribute decode_time b e s g has)
]

clock_to-planner :
    (now : Option ℕ) (e : ServingEngine) → (clock_to now e).memory_planner ≡ e.memory_planner
clock_to-planner none e = refl
clock_to-planner (some t) e = unfold set_current_time in refl

-- On an engine with the invariant, and where going through a set lists its values, each once, a
-- step that ends by an exception ends by one of the memory planner: an assertion, or AttributeError,
-- which it raises only if its object lacks `_block_memory_size_per_shard`. No `set.remove` fails.
pub step-memory_error :
    (prefill_time decode_time : ℕ → ℕ → ℕ) (listing : List ℕ → List ℕ) (now : Option ℕ)
    (e : ServingEngine) (s : Store) (x : EngineError)
    → Lists listing
    → Good (lanes e)
    → step prefill_time decode_time listing now (e, s) ≡ raised x
    → (m : MemoryError) × (x ≡ memory_error m) × Raises (block_size_of e) m
unfolding step
step-memory_error prefill_time decode_time listing now e s x lists g h =
    subst
      (λ p.
        (m : MemoryError) × (x ≡ memory_error m) × Raises p.config.block_memory_size_per_shard m)
      (clock_to-planner now e)
      (let timed = clock_to now e in
        let attribute = block_size_of timed in
        bind-OnlyMemory attribute
          (start_next_prefill timed.current_prefill_request timed.prefill_queue (timed, s)) _
          (start_next_prefill-OnlyMemory timed.current_prefill_request timed.prefill_queue timed s)
          (λ started r₁.
            let (e', s') = process_prefill prefill_time started.0.current_prefill_request started in
            let so_far = Flows-trans (clock_to-Flows now e) (
              Flows-trans (start_next_prefill-Flows timed s started r₁)
                (process_prefill-Flows prefill_time started.0 started.1)) in
            let (formed, done) = batch_up_total listing lists e' in
            bind-OnlyMemory attribute
              (batch_up listing e'.current_decode_batch e'.decode_ready_requests e') _
              (ok-OnlyMemory attribute _ formed done)
              (λ batched r₂.
                let good = (Flows-trans so_far (batch_up-Flows listing e' batched r₂) g).0 in
                bind-OnlyMemory attribute
                  (decode_batch decode_time batched.current_decode_batch (batched, s')) _
                  (decode_batch-OnlyMemory attribute decode_time batched.current_decode_batch
                    batched s' good refl)
                  (λ a _ z k. cc)))
          x h)
