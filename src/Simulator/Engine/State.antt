-- ===== src/Simulator/Engine/State.antt =====
-- engine.py: the state of an engine. A request is an object that the engine shares with the cluster
-- manager: it stands in a store, and the queues hold its number. Memory is counted in bits times the
-- number of shards, so that a share of the weights is a whole number. The events that the engine
-- hands to its callback are collected in `outbox`, in their order.
use open_tela.Prelude.{
  ℕ, ◌+◌, max, Bool, false, List, [], ◌∷◌, ◌++◌, length, Option, none, some, String, ◌==◌, nat_eq,
  if◌then◌else◌,
}
use open_tela.Prelude.Sets.{contains, remove}
use open_tela.Simulator.Request.{GenerationRequest}
use open_tela.Simulator.Memory.Sizes.{MemoryError}
use open_tela.Simulator.Memory.Planner.{MemoryPlanner}
use open_tela.Simulator.Events.{Event, EventType, EventPriority, EventData}

abbrev pub Store : Type 0
Store = ℕ → GenerationRequest

-- Assignments to the fields of the object `h`.
abbrev pub update : ℕ → (GenerationRequest → GenerationRequest) → Store → Store
update h f s k = if h == k then f (s k) else s k

pub data BatchStatus : Type 0 where
  forming decoding completed : BatchStatus

pub record Batch : Type 0 where
  pub batch_number : ℕ  -- of its name `decode_batch_<n>`
  pub requests : List ℕ
  pub status : BatchStatus

-- `Batch.add_request`
unfoldable pub add_to_batch : ℕ → Batch → Batch
add_to_batch h b = if contains h b.requests then b else record b { requests = b.requests ++ h ∷ [] }

abbrev pub keep_or : List ℕ → Option (List ℕ) → List ℕ
keep_or xs none = xs
keep_or xs (some ys) = ys

abbrev pub completed_if_empty : Batch → List ℕ → Batch
completed_if_empty b [] = record b { requests = []; status = completed }
completed_if_empty b (x ∷ xs) = record b { requests = x ∷ xs }

-- `Batch.remove_request`
unfoldable pub remove_from_batch : ℕ → Batch → Batch
remove_from_batch h b = completed_if_empty b (keep_or b.requests (remove h b.requests))

abbrev pub is_empty : Batch → Bool
is_empty b = length b.requests == 0

pub data Phase : Type 0 where
  prefill decode : Phase

-- What `create_detailed_events` tells of one request: a complete event of the Chrome trace.
pub record Span : Type 0 where
  pub phase : Phase
  pub req_id : String
  pub ts : ℕ
  pub dur : ℕ
  pub tokens : ℕ

pub record EngineStatistics : Type 0 where
  pub requests_processed : ℕ
  pub total_tokens_generated : ℕ
  pub total_prefill_time : ℕ
  pub total_decode_time : ℕ
  pub memory_peak : ℕ
  pub batch_sizes : List ℕ

pub record ServingEngine : Type 0 where
  pub engine_id : String
  pub model_id : String
  pub hardware : String
  pub memory_bandwidth : ℕ
  pub compute_throughput : ℕ
  pub max_batch_size : ℕ
  pub memory_planner : MemoryPlanner
  pub request_queue : List ℕ
  pub active_requests : List ℕ
  pub completed_requests : List ℕ
  pub prefill_queue : List ℕ
  pub decode_ready_requests : List ℕ
  pub current_decode_batch : Option Batch
  pub batch_counter : ℕ
  pub current_prefill_request : Option ℕ
  pub trace_events : List Span
  pub current_time : ℕ
  pub time_cursor : ℕ
  pub model_loaded : Bool
  pub model_memory_usage : ℕ
  pub kv_cache_memory : ℕ
  pub kv_cache_capacity : ℕ
  pub statistics : EngineStatistics
  pub outbox : List Event

-- What ends a step by an exception: what the planner raises, or `set.remove` of an absent value.
pub data EngineError : Type 0 where
  memory_error : MemoryError → EngineError
  key_error : EngineError

-- The attributes that the constructor sets.
unfoldable pub new_engine : String → String → String → ℕ → ℕ → MemoryPlanner → ℕ → ServingEngine
new_engine id model hardware bandwidth throughput planner size = record {
  engine_id = id;
  model_id = model;
  hardware = hardware;
  memory_bandwidth = bandwidth;
  compute_throughput = throughput;
  max_batch_size = size;
  memory_planner = planner;
  request_queue = [];
  active_requests = [];
  completed_requests = [];
  prefill_queue = [];
  decode_ready_requests = [];
  current_decode_batch = none;
  batch_counter = 0;
  current_prefill_request = none;
  trace_events = [];
  current_time = 0;
  time_cursor = 0;
  model_loaded = false;
  model_memory_usage = 0;
  kv_cache_memory = 0;
  kv_cache_capacity = 0;
  statistics = record {
    requests_processed = 0;
    total_tokens_generated = 0;
    total_prefill_time = 0;
    total_decode_time = 0;
    memory_peak = 0;
    batch_sizes = [];
  };
  outbox = [];
}

-- `emit_event` and the callback: the cluster manager puts its own time into the event.
unfoldable pub emit_event : EventType → EventData → EventPriority → ServingEngine → ServingEngine
emit_event t d p e = record e {
  outbox =
      e.outbox
      ++ (record {
        timestamp = 0;
        event_type = t;
        target = e.engine_id;
        contents = d;
        priority = p;
      })
        ∷ [];
}

abbrev pub some_count : Option ℕ → ℕ
some_count none = 0
some_count (some h) = 1

unfoldable pub get_current_load : ServingEngine → ℕ
get_current_load e =
    length e.active_requests + length e.decode_ready_requests + some_count e.current_prefill_request

-- `set_current_time`
unfoldable pub set_current_time : ℕ → ServingEngine → ServingEngine
set_current_time t e = record e { current_time = t; time_cursor = max e.time_cursor t }
