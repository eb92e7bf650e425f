-- ===== src/Simulator/Examples/Cluster.antt =====
-- cluster_manager.py: the theorems on the handlers applied to a small cluster.
use open_tela.Prelude.{nat_eq, ℕ, ◌<◌, ◌≡◌, refl, [], ◌∷◌, Option, none, some, string_eq, raised}
use open_tela.Simulator.Config.{normalize_parallel_config}
use open_tela.Simulator.Request.{decode, set_prefill_finished_at, start_prefill, stop}
use open_tela.Simulator.Memory.Sizes.{
  value_error, shard_memory, shards, get_weights_memory, get_weights_memory_per_shard, head_dim,
  hidden_size, intermediate_size, num_attention_heads, num_key_value_heads, num_hidden_layers,
  vocab_size,
}
use open_tela.Simulator.Memory.Planner.{
  new_planner, allocate, estimate_required_blocks, free, free_from, has_allocation,
  can_allocate_request, get_allocated_kv_memory_per_shard, get_total_kv_memory_capacity_per_shard,
  estimate_additional_kv_memory_per_shard,
}
use open_tela.Simulator.Engine.State.{
  ServingEngine, new_engine, set_current_time, emit_event, add_to_batch, remove_from_batch,
}
use open_tela.Simulator.Engine.Loading.{
  add_request, can_accommodate_request, fallback_memory, load_model, gpu_memory_capacity,
  refresh_memory_usage, fits_with_margin, get_memory_info,
}
use open_tela.Simulator.Engine.Decoding.{
  form_decode_batch, add_to_decode_batch, process_decode_batch, decode_all, decode_one,
  create_detailed_events, remove_all, complete_all,
}
use open_tela.Simulator.Engine.Stepping.{
  start_next_prefill, start_head, begin_prefill, process_prefill, batch_up, decode_batch,
  drop_empty_batch,
}
use open_tela.Simulator.Engine.Stepping
use open_tela.Simulator.Events.Order.{new_loop-Inv}
use open_tela.Prelude.Dict.{get, put, pop}
use open_tela.Prelude.Sets.{add, remove, contains}
use open_tela.Simulator.Heapq.{heappush, siftdown}
use open_tela.Simulator.Events.{
  schedule_event, event_rank, Event, EventType, EventPriority, EventData, EventLoop, new_loop,
}
use open_tela.Simulator.Scheduler.Choice.{PlacementStatistics, no_decisions}
use open_tela.Simulator.Cluster.State.{
  ClusterManager, HardwareSpec, planner_failed, initialize_cluster, add_node, empty_manager,
}
use open_tela.Simulator.Cluster.Dispatch.{
  requeue, step_event, handle_engine_events, handle_engine_event, schedule_engine_events,
  schedule_next_step, has_pending_work, next_step_time,
}
use open_tela.Simulator.Cluster.Nodes.{
  handle_node_offline, mark_offline, rebalance_requests, clear_request_queue,
}
use open_tela.Simulator.Cluster.Handlers.{handlers, handle_batch_form, after_engine_step}
use open_tela.Simulator.Cluster.Ledger.{ledger}
use open_tela.Simulator.Cluster.Machine.{LedgerStep}
use open_tela.Simulator.Cluster.Refinement.{handlers-LedgerStep}
use open_tela.Simulator.Cluster.Progress.{Gains, handle_batch_form-Gains}
use open_tela.Simulator.Examples.Engine.{engine, waiting, requests}
use open_tela.Simulator.Examples.Samples.{small_config}
use open_tela.Simulator.Examples.Nodes.{world, nodes, manager, value_or}

abbrev spec : HardwareSpec
spec = record { vmemory = 100; bandwidth = 1; fp16 = 1 }

initialize_cluster_test :
    initialize_cluster
      (λ m. small_config.params)
      (λ h. some spec)
      nodes
      (empty_manager no_decisions)
    ≡ raised (planner_failed value_error)
unfolding initialize_cluster add_node new_planner normalize_parallel_config
initialize_cluster_test = refl

abbrev failure : Event
failure = record {
  timestamp = 0;
  event_type = EventType.node_offline;
  target = "cluster_manager";
  contents = EventData.of_node "n1";
  priority = EventPriority.highest;
}

abbrev failed : ClusterManager PlacementStatistics × EventLoop
failed = value_or (manager, new_loop) (some (handle_node_offline failure (manager, new_loop)))

handlers-LedgerStep_example : LedgerStep (EventData.of_node "n1") (ledger manager) (ledger failed.0)
unfolding handlers handle_node_offline mark_offline rebalance_requests clear_request_queue
    empty_manager get put add remove contains requeue new_engine
handlers-LedgerStep_example =
    handlers-LedgerStep world EventType.node_offline handle_node_offline failure manager new_loop
      failed refl refl

-- The engine has a request whose prompt has its blocks.
abbrev busy : ClusterManager PlacementStatistics
busy = record manager { serving_engines = ("n1", waiting) ∷ []; store = requests }

abbrev formed : ClusterManager PlacementStatistics × EventLoop
formed =
    value_or (busy, new_loop) (some (handle_batch_form world (step_event "n1" 0) (busy, new_loop)))

abbrev engine_or : ServingEngine → Option ServingEngine → ServingEngine
engine_or e none = e
engine_or e (some x) = x

abbrev left : ServingEngine
left = engine_or waiting (get "n1" formed.0.serving_engines)

handle_batch_form-Gains_example : (t : ℕ) × (0 < t) × Gains (step_event "n1" t) new_loop formed.1
unfolding engine get put pop add contains remove decode set_prefill_finished_at start_prefill stop
    shard_memory shards get_weights_memory get_weights_memory_per_shard head_dim hidden_size
    intermediate_size num_attention_heads num_key_value_heads num_hidden_layers vocab_size allocate
    estimate_required_blocks free free_from has_allocation can_allocate_request
    get_allocated_kv_memory_per_shard get_total_kv_memory_capacity_per_shard
    estimate_additional_kv_memory_per_shard new_engine set_current_time emit_event add_to_batch
    remove_from_batch add_request can_accommodate_request fallback_memory load_model
    gpu_memory_capacity refresh_memory_usage fits_with_margin get_memory_info form_decode_batch
    add_to_decode_batch process_decode_batch decode_all decode_one create_detailed_events remove_all
    complete_all Stepping.step start_next_prefill start_head begin_prefill process_prefill batch_up
    decode_batch drop_empty_batch handle_batch_form after_engine_step handle_engine_events
    handle_engine_event schedule_engine_events schedule_next_step has_pending_work next_step_time
    schedule_event heappush siftdown event_rank new_loop
handle_batch_form-Gains_example =
    handle_batch_form-Gains world (step_event "n1" 0) busy new_loop formed waiting left new_loop-Inv
      refl refl refl refl
