-- ===== src/Simulator/Cluster/Queueing.antt =====
-- cluster_manager.py: what the handlers do to the event loop.
use open_tela.Prelude.{
  ℕ, ◌≡◌, ap, Bool, Bool-cases, Option-cases, List, Option, none, some, String, ◌==◌, string_eq,
  Result, ok, raised, ◌>>=◌, >>=-eq-ok, inl, inr, arith, ok-injective,
}
use mathlib.Core.Path.{subst}
use open_tela.Prelude.Dict.{get}
use open_tela.Prelude.Sets.{contains}
use open_tela.Simulator.Events.{Event, EventType, EventData, EventLoop, LoopError, schedule_event}
use open_tela.Simulator.Events.Running.{Keeps}
use open_tela.Simulator.Engine.State.{ServingEngine, EngineError, Store}
use open_tela.Simulator.Engine.Loading.{add_request}
use open_tela.Simulator.Scheduler.Choice.{PlacementDecision}
use open_tela.Simulator.Cluster.State.{ClusterManager, World}
use open_tela.Simulator.Cluster.Dispatch.{
  Handler, handle_engine_events, is_some, node_id_of, placement_event, request_id_of, requeue,
  schedule_engine_events, schedule_engine_step, schedule_next_step,
}
use open_tela.Simulator.Cluster.Requests.{
  after_request, arrival_of, carry_out, decided_by, handle_placement_decision,
  handle_request_arrival, handle_request_complete, place, placed_on, reject_request,
}
use open_tela.Simulator.Cluster.Nodes.{
  clear_request_queue, handle_load_balance, handle_node_offline, handle_node_online,
  rebalance_requests,
}
use open_tela.Simulator.Cluster.Handlers.{
  after_engine_step, handle_batch_form, handlers, every_handler,
}
use open_tela.Simulator.Cluster.Growth.{
  Grows, Grows-refl, Grows-trans, schedule_event-Grows, handle_engine_events-Grows,
  schedule_engine_events-Grows, requeue-Grows, schedule_next_step-Grows,
}

module _ {P : Type 0} (w : World P) where
  -- A handler that returns lets the loop grow.
  abbrev GrowsLoop :
      (ClusterManager P × EventLoop → Result LoopError (ClusterManager P × EventLoop)) → Type 0
  GrowsLoop f =
      (m : ClusterManager P) (l : EventLoop) (after : ClusterManager P × EventLoop)
      → f (m, l) ≡ ok after
      → Grows l after.1

  same_loop :
      (m : ClusterManager P) (l : EventLoop) (after : ClusterManager P × EventLoop)
      → ◌≡◌ {A = Result LoopError (ClusterManager P × EventLoop)} (ok (m, l)) (ok after)
      → Grows l after.1
  same_loop m l after h =
      subst (Grows l) (ap (λ (y : ClusterManager P × EventLoop). y.1) (ok-injective h))
        (Grows-refl l)

  -- The loop grows by the calls before the last, and the manager is built behind them.
  then_ok :
      (r : Result LoopError EventLoop) (build : EventLoop → ClusterManager P) (l : EventLoop)
      (after : ClusterManager P × EventLoop)
      → ((l' : EventLoop) → r ≡ ok l' → Grows l l')
      → (r >>= λ l'. ok (build l', l')) ≡ ok after
      → Grows l after.1
  then_ok r build l after grows h =
      let (l', done, rest) = >>=-eq-ok r (λ l'. ok (build l', l')) h in
      subst (Grows l) (ap (λ (y : ClusterManager P × EventLoop). y.1) (ok-injective rest))
        (grows l' done)

  reject_request-Grows : (h : ℕ) (reason : String) → GrowsLoop (reject_request w h reason)
  unfolding reject_request
  reject_request-Grows h reason m l after r =
      elim (Bool-cases (is_some (get (m.store h).req_id m.active_requests))) [
        | inl t ↦ same_loop _ l after (rw t at r)
        | inr f ↦ cc (rw f at r)
      ]

  placed_on-Grows : (id : String) (d : PlacementDecision) → GrowsLoop (placed_on w id d)
  unfolding placed_on schedule_engine_step
  placed_on-Grows id d m l after r =
      then_ok (schedule_engine_step (d.target_engine).engine_id l) _ l after
        (schedule_event-Grows _ l) r

  after_request-Grows :
      (id : String) (h : ℕ) (d : PlacementDecision)
      (r : Result EngineError (Bool × (ServingEngine × Store)))
      → GrowsLoop (after_request w id h d r)
  unfolding after_request
  after_request-Grows id h d (raised x) m l after r = cc
  after_request-Grows id h d (ok (success, moved)) m l after r =
      let (l', drained, rest) = >>=-eq-ok (handle_engine_events (moved.0).outbox l) _ r in
      let first = handle_engine_events-Grows (moved.0).outbox l l' drained in
      elim (Bool-cases success) [
        | inl t ↦ Grows-trans first (placed_on-Grows id d _ l' after (rw t at rest))
        | inr f ↦ Grows-trans first (reject_request-Grows h _ _ l' after (rw f at rest))
      ]

  carry_out-Grows :
      (id : String) (h : ℕ) (d : Option PlacementDecision) → GrowsLoop (carry_out w id h d)
  unfolding carry_out
  carry_out-Grows id h none m l after r = reject_request-Grows h _ m l after r
  carry_out-Grows id h (some d) m l after r =
      after_request-Grows id h d (add_request h (d.target_engine, m.store)) m l after r

  clear_request_queue-Grows : (n : String) → GrowsLoop (clear_request_queue n)
  unfolding clear_request_queue
  clear_request_queue-Grows n m l after r = elim (Option-cases (get n m.serving_engines)) [
    | inl e ↦ same_loop m l after (rw (e, clear_request_queue) at r)
    | inr (engine, e) ↦
        then_ok (requeue m.store engine.request_queue l) _ l after
          (requeue-Grows m.store engine.request_queue l) (rw (e, clear_request_queue) at r)
  ]

  rebalance_requests-Grows : (n : Option String) → GrowsLoop (rebalance_requests n)
  unfolding rebalance_requests
  rebalance_requests-Grows none m l after r = same_loop m l after r
  rebalance_requests-Grows (some n) m l after r = elim (Bool-cases (n == "")) [
    | inl t ↦ same_loop m l after (rw t at r)
    | inr f ↦ clear_request_queue-Grows n m l after (rw f at r)
  ]

  after_engine_step-Grows :
      (n : String) (r : Result EngineError (List Event × (ServingEngine × Store)))
      → GrowsLoop (after_engine_step w n r)
  unfolding after_engine_step
  after_engine_step-Grows n (raised x) m l after r = cc
  after_engine_step-Grows n (ok (events, moved)) m l after r =
      let (l₁, drained, r₁) = >>=-eq-ok (handle_engine_events (moved.0).outbox l) _ r in
      let (l₂, queued, r₂) = >>=-eq-ok (schedule_engine_events events l₁) _ r₁ in
      Grows-trans (handle_engine_events-Grows (moved.0).outbox l l₁ drained) (
        Grows-trans (schedule_engine_events-Grows events l₁ l₂ queued) (
          then_ok (schedule_next_step n moved.0 l₂) _ l₂ after
            (schedule_next_step-Grows n moved.0 l₂) r₂))

  arrival_of-Grows : (t : ℕ) (x : EventData) → GrowsLoop (arrival_of w t x)
  unfolding arrival_of
  arrival_of-Grows t (EventData.arrival id model i o) m l after r =
      then_ok (schedule_event (placement_event id t) l) _ l after (schedule_event-Grows _ l) r
  arrival_of-Grows t _ m l after r = cc

  handle_placement_decision-Grows : (v : Event) → GrowsLoop (handle_placement_decision w v)
  unfolding handle_placement_decision place
  handle_placement_decision-Grows v m l after r = elim (Option-cases (request_id_of v.contents)) [
    | inl e ↦ cc (rw (e, handle_placement_decision) at r)
    | inr (id, e) ↦ elim (Option-cases (get id m.active_requests)) [
      | inl g ↦
          same_loop m l after
            (rw (g, handle_placement_decision) at rw (e, handle_placement_decision) at r)
      | inr (h, g) ↦
          let (d, p) = decided_by w m h in
          carry_out-Grows id h d _ l after (
            unfold place in
            rw (g, handle_placement_decision) at rw (e, handle_placement_decision) at r)
    ]
  ]

  handle_request_complete-Grows : (v : Event) → GrowsLoop (handle_request_complete w v)
  unfolding handle_request_complete
  handle_request_complete-Grows v m l after r = elim (Option-cases (request_id_of v.contents)) [
    | inl e ↦ cc (rw (e, handle_request_complete) at r)
    | inr (id, e) ↦ elim (Option-cases (get id m.active_requests)) [
      | inl g ↦
          same_loop m l after
            (rw (g, handle_request_complete) at rw (e, handle_request_complete) at r)
      | inr (h, g) ↦
          same_loop _ l after
            (rw (g, handle_request_complete) at rw (e, handle_request_complete) at r)
    ]
  ]

  handle_node_online-Grows : (v : Event) → GrowsLoop (handle_node_online v)
  unfolding handle_node_online
  handle_node_online-Grows v m l after r = elim (Option-cases (node_id_of v.contents)) [
    | inl e ↦ cc (rw (e, handle_node_online) at r)
    | inr (n, e) ↦ same_loop _ l after (rw (e, handle_node_online) at r)
  ]

  handle_node_offline-Grows : (v : Event) → GrowsLoop (handle_node_offline v)
  unfolding handle_node_offline
  handle_node_offline-Grows v m l after r = elim (Option-cases (node_id_of v.contents)) [
    | inl e ↦ cc (rw (e, handle_node_offline) at r)
    | inr (n, e) ↦
        let r' = rw (e, handle_node_offline) at r in
        elim (Bool-cases (contains n m.online_nodes)) [
          | inl t ↦ rebalance_requests-Grows (some n) _ l after (rw t at r')
          | inr f ↦ same_loop m l after (rw f at r')
        ]
  ]

  handle_batch_form-Grows : (v : Event) → GrowsLoop (handle_batch_form w v)
  unfolding handle_batch_form
  handle_batch_form-Grows v m l after r = elim (Option-cases (get v.target m.serving_engines)) [
    | inl e ↦ same_loop m l after (rw (e, handle_batch_form) at r)
    | inr (engine, e) ↦
        after_engine_step-Grows v.target _ m l after (rw (e, handle_batch_form) at r)
  ]

  abbrev GrowsBy : Handler P → Type 0
  GrowsBy f = (v : Event) → GrowsLoop (f v)

  -- Whatever event a handler of the manager is given: if it returns, and the loop has its invariant,
  -- then it still has, its clock has not moved, and no queued event is gone.
  pub handlers-Grows :
      (t : EventType) (f : Handler P) (v : Event) (m : ClusterManager P) (l : EventLoop)
      (after : ClusterManager P × EventLoop)
      → handlers w t ≡ some f
      → f v (m, l) ≡ ok after
      → Grows l after.1
  handlers-Grows t f v m l after found =
      every_handler w GrowsBy
        (λ v. unfold handle_request_arrival in arrival_of-Grows v.timestamp v.contents)
        handle_placement_decision-Grows handle_node_online-Grows handle_node_offline-Grows
        handle_request_complete-Grows handle_batch_form-Grows
        (λ v. unfold handle_load_balance in rebalance_requests-Grows none) (λ v. same_loop) t f
        found v m l after

  pub handlers-Keeps : Keeps (handlers w)
  handlers-Keeps t f v m l after found inv ran =
      let (kept, t, le) = handlers-Grows t f v m l after found ran inv in (kept, omega (arith, t))
