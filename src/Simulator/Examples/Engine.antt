-- ===== src/Simulator/Examples/Engine.antt =====
-- engine.py: the theorems applied to an engine with one request.
use open_tela.Prelude.{
  ℕ, ◌+◌, ◌≡◌, refl, true, false, List, [], ◌∷◌, some, ok, arith, if◌then◌else◌, Result, raised,
}
use open_tela.Prelude.Dict.{get, put, pop}
use open_tela.Prelude.Sets.{add, contains, remove}
use open_tela.Simulator.Request.{decode, set_prefill_finished_at, start_prefill, stop}
use open_tela.Simulator.Memory.Sizes.{
  shard_memory, shards, get_weights_memory, get_weights_memory_per_shard, head_dim, hidden_size,
  intermediate_size, num_attention_heads, num_key_value_heads, num_hidden_layers, vocab_size,
}
use open_tela.Simulator.Memory.Sizes.{MemoryError, exceeding_memory_limit}
use open_tela.Simulator.Memory.Planner.{
  allocate, estimate_required_blocks, free, free_from, has_allocation, can_allocate_request,
  get_allocated_kv_memory_per_shard, get_total_kv_memory_capacity_per_shard,
  estimate_additional_kv_memory_per_shard,
}
use open_tela.Simulator.Engine.State.{
  memory_error, decoding, EngineError, ServingEngine, Store, new_engine, set_current_time,
  emit_event, add_to_batch, remove_from_batch,
}
use open_tela.Simulator.Engine.Loading.{
  add_request, can_accommodate_request, fallback_memory, load_model, gpu_memory_capacity,
  refresh_memory_usage, fits_with_margin, get_memory_info,
}
use open_tela.Simulator.Engine.Decoding.{
  form_decode_batch, add_to_decode_batch, process_decode_batch, decode_all, decode_one,
  create_detailed_events, remove_all, complete_all,
}
use open_tela.Simulator.Engine.Stepping.{
  step, start_next_prefill, start_head, begin_prefill, process_prefill, batch_up, decode_batch,
  drop_empty_batch,
}
use open_tela.Simulator.Engine.Lanes.{lanes, weight, Good}
use open_tela.Simulator.Engine.Admission.{add_request-Good}
use open_tela.Simulator.Engine.Forming.{batch_up_total}
use open_tela.Simulator.Engine.Raising.{Raises, block_size_of}
use open_tela.Simulator.Engine.Failing.{step-memory_error}
use open_tela.Simulator.Engine.StepFlow.{step-Good}
use open_tela.Simulator.Examples.Samples.{planner, held, request}

unfoldable pub engine : ServingEngine
unfolding new_engine
engine = new_engine "n1" "m" "NVDA:H100" 100 100 planner 8

abbrev pub requests : Store
requests n = request

idle-Good : Good (lanes engine)
unfolding engine new_engine
idle-Good = record { once = λ h. omega arith; working = λ f. refl; bounded = omega arith }

from_ok {ℓ κ} : {E : Type ℓ} {A : Type κ} → A → Result E A → A
from_ok d (ok a) = a
from_ok d (raised e) = d

add_request-Good_example :
    let after = from_ok (false, (engine, requests)) (add_request 0 (engine, requests)) in
    Good (lanes after.1.0)
    × ((f : ℕ → ℕ)
        → weight f (lanes after.1.0) ≡ weight f (lanes engine) + (if after.0 then f 0 else 0))
    × (after.0 ≡ false → after.1 ≡ ((load_model engine).1, requests))
unfolding engine from_ok get put shard_memory shards get_weights_memory get_weights_memory_per_shard
    head_dim hidden_size intermediate_size num_attention_heads num_key_value_heads num_hidden_layers
    vocab_size allocate estimate_required_blocks can_allocate_request
    get_allocated_kv_memory_per_shard get_total_kv_memory_capacity_per_shard
    estimate_additional_kv_memory_per_shard new_engine emit_event add_request
    can_accommodate_request fallback_memory load_model gpu_memory_capacity refresh_memory_usage
    fits_with_margin complete_all
add_request-Good_example =
    let after = from_ok (false, (engine, requests)) (add_request 0 (engine, requests)) in
    add_request-Good 0 engine requests after.0 after.1 idle-Good refl refl

-- The engine with the request in its queue, and the blocks for its prompt.
abbrev pub waiting : ServingEngine
waiting = record engine { prefill_queue = 0 ∷ []; memory_planner = held; model_loaded = true }

waiting-Good : Good (lanes waiting)
unfolding engine new_engine
waiting-Good = record { once = λ h. ground arith; working = λ f. refl; bounded = omega arith }

abbrev time_of : ℕ → ℕ → ℕ
time_of n m = 1000

abbrev as_listed : List ℕ → List ℕ
as_listed hs = hs

step-Good_example :
    let after =
      from_ok
        ([], (waiting, requests))
        (step time_of time_of as_listed (some 0) (waiting, requests)) in
    Good (lanes after.1.0) × ((f : ℕ → ℕ) → weight f (lanes after.1.0) ≡ weight f (lanes waiting))
unfolding engine from_ok get put pop add contains remove decode set_prefill_finished_at
    start_prefill stop shard_memory shards get_weights_memory get_weights_memory_per_shard head_dim
    hidden_size intermediate_size num_attention_heads num_key_value_heads num_hidden_layers
    vocab_size allocate estimate_required_blocks free free_from has_allocation can_allocate_request
    get_allocated_kv_memory_per_shard get_total_kv_memory_capacity_per_shard
    estimate_additional_kv_memory_per_shard new_engine set_current_time emit_event add_to_batch
    remove_from_batch add_request can_accommodate_request fallback_memory load_model
    gpu_memory_capacity refresh_memory_usage fits_with_margin get_memory_info form_decode_batch
    add_to_decode_batch process_decode_batch decode_all decode_one create_detailed_events remove_all
    complete_all step start_next_prefill start_head begin_prefill process_prefill batch_up
    decode_batch drop_empty_batch
step-Good_example =
    let after =
      from_ok ([], (waiting, requests))
        (step time_of time_of as_listed (some 0) (waiting, requests)) in
    step-Good time_of time_of as_listed (some 0) waiting requests after waiting-Good refl

ready : ServingEngine
unfolding engine new_engine
ready = record engine { decode_ready_requests = 0 ∷ [] }

batch_up_total_example :
    (e' : ServingEngine) × (batch_up as_listed ready.current_decode_batch
        ready.decode_ready_requests ready
      ≡ ok e')
batch_up_total_example = batch_up_total as_listed (λ f xs. refl) ready

-- An engine whose only request decodes beyond its two blocks, which are all there are.
abbrev full : ServingEngine
full = record engine {
  memory_planner = record held { max_num_blocks = 2 };
  active_requests = 0 ∷ [];
  current_decode_batch = some (record { batch_number = 1; requests = 0 ∷ []; status = decoding });
  model_loaded = true;
}

full-Good : Good (lanes full)
unfolding engine new_engine
full-Good = record { once = λ h. ground arith; working = λ f. omega arith; bounded = omega arith }

abbrev far_along : Store
far_along n = record request { generated_tokens = 8; output_length = 20 }

step-memory_error_example :
    (m : MemoryError) × (◌≡◌ {A = EngineError}
      (memory_error exceeding_memory_limit)
      (memory_error m))
    × Raises (block_size_of full) m
unfolding engine from_ok get put pop add contains remove decode set_prefill_finished_at
    start_prefill stop shard_memory shards get_weights_memory get_weights_memory_per_shard head_dim
    hidden_size intermediate_size num_attention_heads num_key_value_heads num_hidden_layers
    vocab_size allocate estimate_required_blocks free free_from has_allocation can_allocate_request
    get_allocated_kv_memory_per_shard get_total_kv_memory_capacity_per_shard
    estimate_additional_kv_memory_per_shard new_engine set_current_time emit_event add_to_batch
    remove_from_batch add_request can_accommodate_request fallback_memory load_model
    gpu_memory_capacity refresh_memory_usage fits_with_margin get_memory_info form_decode_batch
    add_to_decode_batch process_decode_batch decode_all decode_one create_detailed_events remove_all
    complete_all step start_next_prefill start_head begin_prefill process_prefill batch_up
    decode_batch drop_empty_batch
step-memory_error_example =
    step-memory_error time_of time_of as_listed (some 0) full far_along
      (memory_error exceeding_memory_limit) (λ f xs. refl) full-Good refl
