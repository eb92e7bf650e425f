-- ===== src/Simulator/Examples/Simulation.antt =====
-- cluster_manager.py: the theorems on `run_simulation` applied to a small cluster.
use open_tela.Prelude.{
  ==_cases, inl, inr, ◌+◌, ◌≤◌, nat_eq, arith, ℕ, ◌≡◌, refl, true, some, String, string_eq, Result,
}
use mathlib.Core.Path.{subst}
use open_tela.Simulator.Request.{
  set_generation_finished_at, new_request, decode, set_prefill_finished_at, start_prefill, stop,
}
use open_tela.Simulator.Memory.Sizes.{
  shard_memory, shards, get_weights_memory, get_weights_memory_per_shard, head_dim, hidden_size,
  intermediate_size, num_attention_heads, num_key_value_heads, num_hidden_layers, vocab_size,
}
use open_tela.Simulator.Memory.Planner.{
  allocate, estimate_required_blocks, free, free_from, has_allocation, can_allocate_request,
  get_allocated_kv_memory_per_shard, get_total_kv_memory_capacity_per_shard,
  estimate_additional_kv_memory_per_shard,
}
use open_tela.Simulator.Engine.State.{
  get_current_load, new_engine, set_current_time, emit_event, add_to_batch, remove_from_batch,
}
use open_tela.Simulator.Engine.Loading.{
  add_request, can_accommodate_request, fallback_memory, load_model, gpu_memory_capacity,
  refresh_memory_usage, fits_with_margin, get_memory_info,
}
use open_tela.Simulator.Engine.Decoding.{
  form_decode_batch, add_to_decode_batch, process_decode_batch, decode_all, decode_one,
  create_detailed_events, remove_all, complete_all,
}
use open_tela.Simulator.Engine.Stepping.{
  start_next_prefill, start_head, begin_prefill, process_prefill, batch_up, decode_batch,
  drop_empty_batch,
}
use open_tela.Simulator.Engine.Stepping
use open_tela.Simulator.Events.Order.{new_loop-Inv}
use open_tela.Prelude.Dict.{get, put, pop}
use open_tela.Prelude.Sets.{add, remove, contains, one_at}
use open_tela.Simulator.Heapq.{swap, heappush, heappop, siftdown, siftup, sink, smaller_child}
use open_tela.Simulator.Events.{
  schedule_event, run, run_loop, halts, event_rank, step, enter_event, handle, finish, EventLoop,
  LoopError, new_loop,
}
use open_tela.Simulator.Scheduler.Choice.{PlacementStatistics, highest_from, update_statistics}
use open_tela.Simulator.Scheduler.Algorithms.{place_roofline, roofline_score}
use open_tela.Simulator.Cluster.State.{ClusterManager, available_engines, empty_manager}
use open_tela.Simulator.Cluster.Simulation.{
  refresh_engines, latencies, run_simulation, schedule_request_arrivals, schedule_arrivals,
  schedule_balancing, simulate_node_failure, update_metrics,
}
use open_tela.Simulator.Cluster.Dispatch.{
  schedule_engine_step, requeue, handle_engine_events, handle_engine_event, schedule_engine_events,
  schedule_next_step, has_pending_work, next_step_time,
}
use open_tela.Simulator.Cluster.Requests.{
  handle_request_arrival, handle_placement_decision, handle_request_complete, reject_request,
  arrive, arrival_of, record_placement_decision, placed_on, after_request, carry_out, decided_by,
  place, complete,
}
use open_tela.Simulator.Cluster.Nodes.{
  handle_node_offline, handle_node_online, mark_offline, node_online, rebalance_requests,
  clear_request_queue,
}
use open_tela.Simulator.Cluster.Handlers.{handlers, handle_batch_form, after_engine_step}
use open_tela.Simulator.Cluster.Ledger.{Census, ledger}
use open_tela.Simulator.Cluster.Outcome.{Outcome, run_simulation_total, run_simulation_lem}
use open_tela.Simulator.Examples.Nodes.{world, nodes, workload, manager, value_or}

abbrev counts : String → ℕ
counts n = one_at n "n1" + one_at n "n2"

counts-le : (n : String) → counts n ≤ 1
counts-le n = elim (==_cases "n1" n) [
  | inl (q, p) ↦ subst (λ k. counts k ≤ 1) p (omega arith)
  | inr (q, _) ↦ rw q (ground arith)
]

manager-Census : Census counts (ledger manager)
unfolding empty_manager
manager-Census = record {
  no_more = omega arith;
  finishes = refl;
  outages = refl;
  once = counts-le;
  stands = λ n. omega arith;
}

-- What the simulation of 20 microseconds returns, in which the first node fails and recovers.
abbrev after : ClusterManager PlacementStatistics × EventLoop
after =
    value_or (manager, new_loop) (run_simulation workload world nodes 20 true (manager, new_loop))

run_simulation_total_example :
    (r : Result LoopError (ClusterManager PlacementStatistics × EventLoop)) × (run_simulation
        workload world nodes 20 true
        (manager, new_loop)
      ≡ some r)
run_simulation_total_example = run_simulation_total workload world nodes 20 true manager new_loop

run_simulation_lem_example : Outcome new_loop counts after
unfolding run_simulation schedule_request_arrivals schedule_arrivals schedule_event new_loop
    schedule_balancing simulate_node_failure run run_loop halts heappush siftdown siftup sink
    smaller_child event_rank step heappop enter_event handle handlers handle_node_offline
    handle_node_online mark_offline node_online rebalance_requests clear_request_queue finish
    update_metrics empty_manager requeue new_request handle_request_arrival
    handle_placement_decision handle_request_complete available_engines arrive arrival_of
    record_placement_decision placed_on after_request carry_out decided_by place complete
    schedule_engine_step update_statistics swap get_current_load place_roofline roofline_score
    highest_from reject_request set_generation_finished_at latencies refresh_engines get put pop add
    contains remove decode set_prefill_finished_at start_prefill stop shard_memory shards
    get_weights_memory get_weights_memory_per_shard head_dim hidden_size intermediate_size
    num_attention_heads num_key_value_heads num_hidden_layers vocab_size allocate
    estimate_required_blocks free free_from has_allocation can_allocate_request
    get_allocated_kv_memory_per_shard get_total_kv_memory_capacity_per_shard
    estimate_additional_kv_memory_per_shard new_engine set_current_time emit_event add_to_batch
    remove_from_batch add_request can_accommodate_request fallback_memory load_model
    gpu_memory_capacity refresh_memory_usage fits_with_margin get_memory_info form_decode_batch
    add_to_decode_batch process_decode_batch decode_all decode_one create_detailed_events remove_all
    complete_all Stepping.step start_next_prefill start_head begin_prefill process_prefill batch_up
    decode_batch drop_empty_batch handle_batch_form after_engine_step handle_engine_events
    handle_engine_event schedule_engine_events schedule_next_step has_pending_work next_step_time
run_simulation_lem_example =
    run_simulation_lem workload world nodes 20 true manager new_loop counts after new_loop-Inv
      manager-Census refl

-- Both requests were completed; one failure and one recovery were handled.
outcome_test :
    ((after.0).metrics.total_requests ≡ 2)
    × ((after.0).metrics.completed_requests ≡ 2)
    × ((after.0).metrics.node_failures ≡ 1)
    × ((after.0).metrics.node_recoveries ≡ 1)
unfolding run_simulation schedule_request_arrivals schedule_arrivals schedule_event new_loop
    schedule_balancing simulate_node_failure run run_loop halts heappush siftdown siftup sink
    smaller_child event_rank step heappop enter_event handle handlers handle_node_offline
    handle_node_online mark_offline node_online rebalance_requests clear_request_queue finish
    update_metrics empty_manager requeue new_request handle_request_arrival
    handle_placement_decision handle_request_complete available_engines arrive arrival_of
    record_placement_decision placed_on after_request carry_out decided_by place complete
    schedule_engine_step update_statistics swap get_current_load place_roofline roofline_score
    highest_from reject_request set_generation_finished_at latencies refresh_engines get put pop add
    contains remove decode set_prefill_finished_at start_prefill stop shard_memory shards
    get_weights_memory get_weights_memory_per_shard head_dim hidden_size intermediate_size
    num_attention_heads num_key_value_heads num_hidden_layers vocab_size allocate
    estimate_required_blocks free free_from has_allocation can_allocate_request
    get_allocated_kv_memory_per_shard get_total_kv_memory_capacity_per_shard
    estimate_additional_kv_memory_per_shard new_engine set_current_time emit_event add_to_batch
    remove_from_batch add_request can_accommodate_request fallback_memory load_model
    gpu_memory_capacity refresh_memory_usage fits_with_margin get_memory_info form_decode_batch
    add_to_decode_batch process_decode_batch decode_all decode_one create_detailed_events remove_all
    complete_all Stepping.step start_next_prefill start_head begin_prefill process_prefill batch_up
    decode_batch drop_empty_batch handle_batch_form after_engine_step handle_engine_events
    handle_engine_event schedule_engine_events schedule_next_step has_pending_work next_step_time
outcome_test = (refl, refl, refl, refl)
