-- ===== src/Simulator/Cluster/Simulation.antt =====
-- cluster_manager.py: the metrics, and the methods around a run of the event loop.
-- The lengths of the requests are drawn at random: `draws` lists them, the input's and the output's.
use open_tela.Prelude.{
  ℕ, zero, suc, ◌+◌, ◌-◌, ◌*◌, ◌/◌, max, Bool, true, List, [], ◌∷◌, length, Option, none, some,
  String, Result, ok, raised, ◌>>=◌, ltb, if◌then◌else◌, nat_beq,
}
use open_tela.Prelude.Dict.{Dict}
use open_tela.Simulator.Events.{
  Event, EventType, EventPriority, EventData, EventLoop, LoopError, handler_failed, schedule_event,
  run,
}
use open_tela.Simulator.Engine.State.{ServingEngine, Store, set_current_time}
use open_tela.Simulator.Engine.Loading.{get_memory_info}
use open_tela.Simulator.Memory.Sizes.{shards}
use open_tela.Simulator.Cluster.State.{ClusterManager, World, NodeConfiguration}
use open_tela.Simulator.Cluster.Dispatch.{is_filled}
use open_tela.Simulator.Cluster.Handlers.{handlers}

-- `engine.get_memory_info()` refreshes each engine. What it uses stands in bits times its shards, so
-- that the sum over the engines is a quotient; the capacity is in bits.
unfoldable pub refresh_engines :
    Dict String ServingEngine → ((ℕ × ℕ) × ℕ) × Dict String ServingEngine
refresh_engines [] = (((0, 1), 0), [])
refresh_engines ((n, e) ∷ es) =
    let (info, e') = get_memory_info e in
    let config = e.memory_planner.config in
    let (((used, over), capacity), es') = refresh_engines es in
    (
      (
        (info.used * over + used * shards config, shards config * over),
        config.vmemory * 8 + capacity,
      ),
      (n, e') ∷ es',
    )

-- `generation_finished_at - arrive_at` of the requests that have finished.
abbrev pub finished_latency : Option ℕ → ℕ → List ℕ → List ℕ
finished_latency none arrive_at rest = rest
finished_latency (some t) arrive_at rest = (t - arrive_at) ∷ rest

unfoldable pub latencies : Store → List ℕ → List ℕ
latencies s [] = []
latencies s (h ∷ hs) =
    finished_latency (s h).generation_finished_at (s h).arrive_at (latencies s hs)

abbrev pub total_of : List ℕ → ℕ
total_of [] = 0
total_of (t ∷ ts) = t + total_of ts

-- The quotient, or 0 where the denominator is 0.
abbrev pub quotient : ℕ → ℕ → ℕ × ℕ
quotient a b = if ltb 0 b then (a, b) else (0, 1)

-- One second in ticks.
abbrev pub second : ℕ
second = 1000000

-- `np.mean(latencies) if latencies else 0`, and the old value before any request has completed.
abbrev pub new_latency : Store → List ℕ → ℕ × ℕ → ℕ × ℕ
unfolding latencies
new_latency s [] old = old
new_latency s (h ∷ hs) old = let ts = latencies s (h ∷ hs) in quotient (total_of ts) (length ts)

module _ {P : Type 0} where
  -- `_update_metrics`, at the loop's time: requests per tick where the source has them per second.
  unfoldable pub update_metrics : ℕ → ClusterManager P → ClusterManager P
  unfolding refresh_engines
  update_metrics now m =
      let metrics = m.metrics in
      let (((used, over), capacity), engines) = refresh_engines m.serving_engines in
      let elapsed = now - m.start_time in
      if ltb (now - m.last_metrics_update) second then m else record m {
        serving_engines = engines;
        last_metrics_update = now;
        metrics = record metrics {
          cluster_utilization = quotient used (over * capacity);
          average_latency = new_latency m.store m.completed_requests metrics.average_latency;
          throughput =
              if ltb 0 elapsed then (length m.completed_requests, elapsed) else metrics.throughput;
        };
      }

-- The arrival event of a request of the cluster's first model.
abbrev pub arrival_event : String → String → ℕ × ℕ → ℕ → Event
arrival_event id model lengths t = record {
  timestamp = t;
  event_type = EventType.request_arrival;
  target = "cluster_manager";
  contents = EventData.arrival id model lengths.0 lengths.1;
  priority = EventPriority.medium;
}

-- The loop of `schedule_request_arrivals`: the counter, the latest time and the event loop.
-- `name n` is the text `req_<n>`.
unfoldable pub schedule_arrivals :
    (ℕ → String)
    → String
    → (ℕ → ℕ × ℕ)
    → List ℕ
    → ℕ × ℕ × EventLoop
    → Result LoopError (ℕ × ℕ × EventLoop)
schedule_arrivals name model draws [] x = ok x
schedule_arrivals name model draws (t ∷ ts) (n, latest, l) =
    schedule_event (arrival_event (name (n + 1)) model (draws (n + 1)) t) l >>= λ l'.
    schedule_arrivals name model draws ts (n + 1, max latest t, l')

abbrev pub node_event : EventType → String → ℕ → Event
node_event kind node_id t = record {
  timestamp = t;
  event_type = kind;
  target = "cluster_manager";
  contents = EventData.of_node node_id;
  priority = EventPriority.highest;
}

unfoldable pub simulate_node_failure : String → ℕ → ℕ → EventLoop → Result LoopError EventLoop
simulate_node_failure node_id failure_time recovery_time l =
    schedule_event (node_event EventType.node_offline node_id failure_time) l >>= λ l'.
    schedule_event (node_event EventType.node_online node_id recovery_time) l'

abbrev pub balance_event : ℕ → Event
balance_event t = record {
  timestamp = t;
  event_type = EventType.load_balance;
  target = "cluster_manager";
  contents = EventData.no_data;
  priority = EventPriority.low;
}

-- One call after the other, where each may raise or run out of fuel.
abbrev pub and_then {ℓ κ} :
    {A : Type ℓ} {B : Type κ}
    → Option (Result LoopError A)
    → (A → Option (Result LoopError B))
    → Option (Result LoopError B)
and_then none f = none
and_then (some (raised x)) f = some (raised x)
and_then (some (ok a)) f = f a

abbrev pub balance_interval : ℕ
balance_interval = 10 * second

-- The `while` loop that schedules the load balancing; `none` is the end of the fuel.
unfoldable pub schedule_balancing : ℕ → ℕ → ℕ → EventLoop → Option (Result LoopError EventLoop)
schedule_balancing zero t duration l = none
schedule_balancing (suc fuel) t duration l =
    if ltb t duration
    then and_then (some (schedule_event (balance_event t) l))
        (schedule_balancing fuel (t + balance_interval) duration)
    else some (ok l)

-- The rounds that the loop needs.
abbrev pub balancing_fuel : ℕ → ℕ
balancing_fuel duration = suc (duration / balance_interval)

-- `extended_time`: ten times the duration, or an hour.
abbrev pub extended_time : ℕ → ℕ
extended_time duration = if nat_beq duration 0 then 3600 * second else duration * 10

-- `max_events` of the run.
abbrev pub max_events : ℕ
max_events = 10000000

-- What the run takes from outside: the arrival process, the texts `req_<n>` and the drawn lengths.
pub record Workload : Type 0 where
  pub generate_arrivals : ℕ → ℕ → List ℕ
  pub request_name : ℕ → String
  pub draws : ℕ → ℕ × ℕ

-- The optional failure of the first node, from 30% to 50% of the duration.
abbrev pub schedule_failures :
    Bool → List NodeConfiguration → ℕ → EventLoop → Result LoopError EventLoop
schedule_failures true (n ∷ n' ∷ ns) duration l =
    simulate_node_failure n.node_id (duration * 3 / 10) (duration * 5 / 10) l
schedule_failures _ _ duration l = ok l

module _ {P : Type 0} (k : Workload) where
  -- `schedule_request_arrivals` with a duration. `self.config.nodes[0]` is read for every arrival, and
  -- raises without a node.
  unfoldable pub schedule_request_arrivals :
      List NodeConfiguration
      → ℕ
      → ClusterManager P × EventLoop
      → Result LoopError (ClusterManager P × EventLoop)
  schedule_request_arrivals [] duration (m, l) =
      if is_filled (k.generate_arrivals m.start_time duration)
      then raised handler_failed
      else ok (m, l)
  schedule_request_arrivals (n ∷ ns) duration (m, l) =
      schedule_arrivals k.request_name n.model_id k.draws
        (k.generate_arrivals m.start_time duration) (m.request_counter, 0, l)
      >>= λ x. ok (record m { request_counter = x.0 }, x.2)

  -- `run_simulation` with a duration; `none` would be the end of the fuel.
  unfoldable pub run_simulation :
      World P
      → List NodeConfiguration
      → ℕ
      → Bool
      → ClusterManager P × EventLoop
      → Option (Result LoopError (ClusterManager P × EventLoop))
  run_simulation w nodes duration enable_failures (m, l) =
      let start = record m { start_time = 0; current_time = 0 } in
      and_then (some (schedule_request_arrivals nodes duration (start, l))) (λ arranged.
        and_then (schedule_balancing (balancing_fuel duration) balance_interval duration arranged.1)
          (λ l₂. and_then (some (schedule_failures enable_failures nodes duration l₂)) (λ l₃.
            and_then
              (run (handlers w) (max_events + 1) (some (extended_time duration)) (some max_events)
                (arranged.0, l₃))
              (λ done. some (
                ok (
                  update_metrics (done.1).current_time
                      (record (done.0) { current_time = (done.1).current_time }),
                  done.1,
                ))))))

-- `update_engine_timing`
unfoldable pub update_engine_timing : ℕ → Dict String ServingEngine → Dict String ServingEngine
update_engine_timing t [] = []
update_engine_timing t ((n, e) ∷ es) = (n, set_current_time t e) ∷ update_engine_timing t es
