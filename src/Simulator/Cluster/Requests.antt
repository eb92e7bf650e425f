-- ===== src/Simulator/Cluster/Requests.antt =====
-- cluster_manager.py: the handlers of a request's life: arrival, placement, completion.
use open_tela.Prelude.{
  ℕ, ◌+◌, ◌-◌, Bool, [], ◌∷◌, ◌++◌, Option, none, some, String, string_eq, nat_eq, Result, ok,
  raised, ◌>>=◌, if◌then◌else◌,
}
use open_tela.Prelude.Dict.{get, put, pop, get_or}
use open_tela.Simulator.Request.{new_request, set_generation_finished_at}
use open_tela.Simulator.Events.{EventData, EventLoop, LoopError, schedule_event, handler_failed}
use open_tela.Simulator.Engine.State.{ServingEngine, EngineError, Store, update}
use open_tela.Simulator.Engine.Loading.{add_request}
use open_tela.Simulator.Scheduler.Choice.{PlacementDecision}
use open_tela.Simulator.Cluster.State.{
  ClusterManager, World, TraceEvent, TraceArgs, available_engines,
}
use open_tela.Simulator.Cluster.Dispatch.{
  Handler, handle_engine_events, is_some, placement_event, request_id_of, schedule_engine_step,
}

module _ {P : Type 0} where
  abbrev pub traced : TraceEvent → ClusterManager P → ClusterManager P
  traced t m = record m { trace_events = m.trace_events ++ t ∷ [] }

  -- The engine and the requests behind a call of the engine.
  abbrev pub with_engine : String → ServingEngine × Store → ClusterManager P → ClusterManager P
  with_engine n (e, s) m = record m {
    serving_engines = put n (record e { outbox = [] }) m.serving_engines;
    store = s;
  }

module _ {P : Type 0} (w : World P) where
  abbrev lifecycle : String → String → String → ℕ → TraceArgs → TraceEvent
  lifecycle name ph id t args = record {
    name = name;
    cat = "request_lifecycle";
    ph = ph;
    pid = "request_tracker";
    tid = "lifecycle";
    ts = t;
    cname = w.get_request_color id;
    args = args;
  }

  -- The new object, the trace event and the metric of an arrival.
  unfoldable pub arrive : String → String → ℕ → ℕ → ℕ → ClusterManager P → ClusterManager P
  arrive id model i o t m =
      let metrics = m.metrics in
      traced (lifecycle "RequestArrival" "B" id t (TraceArgs.arrived id model i o)) (record m {
        active_requests = put id m.next_object m.active_requests;
        store = update m.next_object (λ _. new_request id model i o t) m.store;
        next_object = m.next_object + 1;
        metrics = record metrics { total_requests = metrics.total_requests + 1 };
      })

  -- `_handle_request_arrival`, by the dictionary of its event; another one lacks a key.
  unfoldable pub arrival_of :
      ℕ → EventData → ClusterManager P × EventLoop → Result LoopError (ClusterManager P × EventLoop)
  arrival_of t (EventData.arrival id model i o) (m, l) =
      schedule_event (placement_event id t) l >>= λ l'. ok (arrive id model i o t m, l')
  arrival_of t _ s = raised handler_failed

  unfoldable pub handle_request_arrival : Handler P
  handle_request_arrival v s = arrival_of v.timestamp v.contents s

  -- `_reject_request`: `del` of an absent key raises.
  unfoldable pub reject_request :
      ℕ → String → ClusterManager P × EventLoop → Result LoopError (ClusterManager P × EventLoop)
  reject_request h reason (m, l) =
      let id = (m.store h).req_id in
      let metrics = m.metrics in
      if is_some (get id m.active_requests)
      then ok (
        traced (lifecycle "RequestRejected" "E" id l.current_time (TraceArgs.rejected reason))
            (record m {
              active_requests = pop id m.active_requests;
              metrics = record metrics { rejected_requests = metrics.rejected_requests + 1 };
            }),
        l,
      )
      else raised handler_failed

  -- `_record_placement_decision`
  unfoldable pub record_placement_decision : PlacementDecision → ClusterManager P → ClusterManager P
  record_placement_decision d m =
      let metrics = m.metrics in
      let seen = get_or 0 (get d.reason metrics.scheduler_decisions) in
      record m {
        metrics = record metrics {
          scheduler_decisions = put d.reason (seen + 1) metrics.scheduler_decisions;
        };
      }

  -- A successful placement.
  unfoldable pub placed_on :
      String
      → PlacementDecision
      → ClusterManager P × EventLoop
      → Result LoopError (ClusterManager P × EventLoop)
  placed_on id d (m, l) =
      let engine_id = (d.target_engine).engine_id in
      let args = TraceArgs.scheduled id engine_id d.reason in
      schedule_engine_step engine_id l >>= λ l'. ok (
        traced (lifecycle "RequestScheduled" "I" id l.current_time args)
            (record_placement_decision d m),
        l',
      )

  -- What follows `decision.target_engine.add_request(request)`.
  unfoldable pub after_request :
      String
      → ℕ
      → PlacementDecision
      → Result EngineError (Bool × (ServingEngine × Store))
      → ClusterManager P × EventLoop
      → Result LoopError (ClusterManager P × EventLoop)
  after_request id h d (raised x) s = raised handler_failed
  after_request id h d (ok (success, after)) (m, l) =
      handle_engine_events (after.0).outbox l >>= λ l'.
      let m' = with_engine (d.target_engine).engine_id after m in
      if success then placed_on id d (m', l') else reject_request h "engine_rejection" (m', l')

  -- What follows `place_request`.
  unfoldable pub carry_out :
      String
      → ℕ
      → Option PlacementDecision
      → ClusterManager P × EventLoop
      → Result LoopError (ClusterManager P × EventLoop)
  carry_out id h none s = reject_request h "no_suitable_engine" s
  carry_out id h (some d) (m, l) =
      after_request id h d (add_request h (d.target_engine, m.store)) (m, l)

  unfoldable pub decided_by : ClusterManager P → ℕ → Option PlacementDecision × P
  decided_by m h =
      w.place_request (m.store h) (available_engines m.online_nodes m.serving_engines) m.scheduler

  unfoldable pub place :
      String → ℕ → ClusterManager P × EventLoop → Result LoopError (ClusterManager P × EventLoop)
  place id h (m, l) =
      let (d, p) = decided_by m h in carry_out id h d (record m { scheduler = p }, l)

  unfoldable pub handle_placement_decision : Handler P
  handle_placement_decision v (m, l) = elim (request_id_of v.contents) [
    | none ↦ raised handler_failed
    | some id ↦ elim (get id m.active_requests) [ none ↦ ok (m, l) | some h ↦ place id h (m, l) ]
  ]

  -- The body of `_handle_request_complete`; the clock does not turn back, so that no difference of
  -- times is negative.
  unfoldable pub complete : String → ℕ → ℕ → ClusterManager P → ClusterManager P
  complete id h t m =
      let r = m.store h in
      let metrics = m.metrics in
      let args = TraceArgs.finished id (t - r.arrive_at) r.generated_tokens in
      traced (lifecycle "RequestComplete" "E" id t args) (record m {
        store = update h (set_generation_finished_at t) m.store;
        completed_requests = m.completed_requests ++ h ∷ [];
        active_requests = pop id m.active_requests;
        metrics = record metrics { completed_requests = metrics.completed_requests + 1 };
      })

  unfoldable pub handle_request_complete : Handler P
  handle_request_complete v (m, l) = elim (request_id_of v.contents) [
    | none ↦ raised handler_failed
    | some id ↦ elim (get id m.active_requests) [
      | none ↦ ok (m, l)
      | some h ↦ ok (complete id h v.timestamp m, l)
    ]
  ]
