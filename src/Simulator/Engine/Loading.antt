-- ===== src/Simulator/Engine/Loading.antt =====
-- engine.py: loading the model, admission, and the memory that is reported.
use open_tela.Prelude.{
  ℕ, ◌+◌, ◌-◌, ◌*◌, max, Bool, true, false, [], ◌∷◌, ◌++◌, Result, ok, raised, leb, ltb,
  if◌then◌else◌, ◌>>=◌,
}
use open_tela.Simulator.Request.{GenerationRequest, ReqStatus}
use open_tela.Prelude.Dict.{get_or}
use open_tela.Simulator.Memory.Sizes.{
  MemoryError, shard_memory, shards, get_weights_memory_per_shard,
}
use open_tela.Simulator.Memory.Planner.{
  MemoryPlanner, get_allocated_kv_memory_per_shard, get_total_kv_memory_capacity_per_shard,
  estimate_additional_kv_memory_per_shard, can_allocate_request, allocate,
}
use open_tela.Simulator.Events.{model_load, model_unload, EventData, high}
use open_tela.Simulator.Engine.State.{
  ServingEngine, EngineError, memory_error, Store, update, emit_event,
}

unfoldable pub gpu_memory_capacity : ServingEngine → ℕ
gpu_memory_capacity e = shard_memory e.memory_planner.config

-- What both reads give, or 0 and 0 where one raises; in bits times shards.
abbrev pub read_or_zero : Result MemoryError ℕ → Result MemoryError ℕ → ℕ → ℕ × ℕ
read_or_zero (ok used) (ok capacity) n = (used * n, capacity * n)
read_or_zero _ _ n = (0, 0)

-- `_refresh_memory_usage`
unfoldable pub refresh_memory_usage : ServingEngine → ServingEngine
refresh_memory_usage e =
    let p = e.memory_planner in
    let (kv, capacity) =
      read_or_zero (get_allocated_kv_memory_per_shard p) (get_total_kv_memory_capacity_per_shard p)
        (shards p.config) in
    let stats = e.statistics in
    record e {
      kv_cache_memory = kv;
      kv_cache_capacity = capacity;
      statistics = record stats { memory_peak = max stats.memory_peak (e.model_memory_usage + kv) };
    }

-- The estimate of `load_model` where the planner raises: bytes, in bits times shards.
unfoldable pub fallback_memory : ServingEngine → ℕ
fallback_memory e =
    let config = e.memory_planner.config in
    let hidden_size = get_or 4096 config.params.hidden_size in
    let num_layers = get_or 32 config.params.num_hidden_layers in
    let vocab_size = get_or 50257 config.params.vocab_size in
    let total_params =
      hidden_size * hidden_size * 4 * num_layers
      + hidden_size * hidden_size * 3 * num_layers
      + hidden_size * vocab_size * 2 in
    total_params * 2 * 8 * shards config

abbrev pub memory_or : ℕ → Result MemoryError ℕ → ℕ
memory_or n (ok m) = m
memory_or n (raised x) = n

-- Whether the model is loaded now, and the engine.
unfoldable pub load_model : ServingEngine → Bool × ServingEngine
unfolding fallback_memory
load_model e =
    let model_memory =
      memory_or (fallback_memory e) (get_weights_memory_per_shard e.memory_planner.config) in
    let loaded = record e { model_memory_usage = model_memory; model_loaded = true } in
    if e.model_loaded
    then (true, e)
    else if ltb (gpu_memory_capacity e) model_memory
    then (false, e)
    else (
      true,
      emit_event model_load (EventData.loaded e.model_id model_memory) high
          (refresh_memory_usage loaded),
    )

unfoldable pub unload_model : ServingEngine → ServingEngine
unload_model e =
    let unloaded = record e {
      model_loaded = false;
      model_memory_usage = 0;
      kv_cache_memory = 0;
      kv_cache_capacity = 0;
    } in
    if e.model_loaded
    then emit_event model_unload (EventData.unloaded e.model_id) high unloaded
    else e

-- `total_memory_needed <= capacity * (1 - 0.1)`
unfoldable pub fits_with_margin : ServingEngine → GenerationRequest → Result MemoryError Bool
fits_with_margin e r =
    let p = e.memory_planner in
    get_allocated_kv_memory_per_shard p >>= λ current_kv.
    estimate_additional_kv_memory_per_shard p r >>= λ additional_kv.
    let total_memory_needed =
      e.model_memory_usage + (current_kv + additional_kv) * shards p.config in
    ok (leb (total_memory_needed * 10) (gpu_memory_capacity e * 9))

-- The answer, which may be an exception, and the engine, whose model may have been loaded.
unfoldable pub can_accommodate_request :
    ServingEngine → GenerationRequest → Result MemoryError Bool × ServingEngine
can_accommodate_request e r =
    let (loaded, e') = load_model e in
    if loaded
    then (if can_allocate_request e'.memory_planner r
        then (fits_with_margin e' r, e')
        else (ok false, e'))
    else (ok false, e')

abbrev pub with_planner : ServingEngine → MemoryPlanner → ServingEngine
with_planner e p = record e { memory_planner = p }

-- `self.memory_planner.allocate(request)`, then `_refresh_memory_usage`
abbrev pub reserved :
    ServingEngine → Result MemoryError MemoryPlanner → Result EngineError ServingEngine
reserved e (ok p) = ok (refresh_memory_usage (with_planner e p))
reserved e (raised x) = raised (memory_error x)

abbrev pub scheduled : GenerationRequest → GenerationRequest
scheduled r = record r { status = ReqStatus.scheduled }

-- A call of the planner raises in the engine's method.
abbrev pub lift_memory {ℓ} : {A : Type ℓ} → Result MemoryError A → Result EngineError A
lift_memory (ok a) = ok a
lift_memory (raised x) = raised (memory_error x)

abbrev pub take_request :
    ℕ → Store → ServingEngine → Bool → Result EngineError (Bool × (ServingEngine × Store))
take_request h s e false = ok (false, (e, s))
take_request h s e true = reserved e (allocate e.memory_planner (s h)) >>= λ e'.
    ok (true, (record e' { prefill_queue = e'.prefill_queue ++ h ∷ [] }, update h scheduled s))

-- `ServingEngine.add_request`: whether the request was taken.
unfoldable pub add_request :
    ℕ → ServingEngine × Store → Result EngineError (Bool × (ServingEngine × Store))
add_request h (e, s) =
    let (answer, e') = can_accommodate_request e (s h) in lift_memory answer >>= take_request h s e'

pub record MemoryInfo : Type 0 where
  pub total : ℕ
  pub model_weights : ℕ
  pub kv_cache : ℕ
  pub kv_capacity : ℕ
  pub kv_blocks_used : ℕ
  pub kv_blocks_capacity : ℕ
  pub available : ℕ
  pub used : ℕ

-- `get_memory_info`: it refreshes the engine. The quotient `utilization` is left to the reader.
unfoldable pub get_memory_info : ServingEngine → MemoryInfo × ServingEngine
get_memory_info e =
    let e' = refresh_memory_usage e in
    let used = e'.model_memory_usage + e'.kv_cache_memory in
    (
      record {
        total = gpu_memory_capacity e';
        model_weights = e'.model_memory_usage;
        kv_cache = e'.kv_cache_memory;
        kv_capacity = e'.kv_cache_capacity;
        kv_blocks_used = e'.memory_planner.allocated_blocks;
        kv_blocks_capacity = e'.memory_planner.max_num_blocks;
        available = gpu_memory_capacity e' - used;
        used = used;
      },
      e',
    )
