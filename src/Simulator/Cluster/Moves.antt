-- ===== src/Simulator/Cluster/Moves.antt =====
-- cluster_manager.py: what each handler does to the ledger.
use open_tela.Prelude.{
  ℕ, ◌≡◌, Bool, Bool-cases, Option-cases, List, Option, none, some, String, string_eq, Result, ok,
  raised, ◌>>=◌, >>=-eq-ok, ok-injective, inl, inr, ◌==◌,
}
use mathlib.Core.Path.{subst}
use open_tela.Prelude.Dict.{get}
use open_tela.Prelude.Sets.{contains}
use open_tela.Simulator.Events.{Event, EventData, EventLoop, LoopError, schedule_event}
use open_tela.Simulator.Engine.State.{ServingEngine, EngineError, Store}
use open_tela.Simulator.Engine.Loading.{add_request}
use open_tela.Simulator.Scheduler.Choice.{PlacementDecision}
use open_tela.Simulator.Cluster.State.{ClusterManager, World}
use open_tela.Simulator.Cluster.Dispatch.{
  handle_engine_events, schedule_engine_events, schedule_engine_step, schedule_next_step,
  placement_event, request_id_of, node_id_of, requeue,
}
use open_tela.Simulator.Cluster.Requests.{
  after_request, arrival_of, arrive, carry_out, complete, decided_by, handle_placement_decision,
  handle_request_complete, place, placed_on, record_placement_decision, reject_request,
}
use open_tela.Simulator.Cluster.Nodes.{
  clear_request_queue, handle_node_offline, handle_node_online, mark_offline, node_online,
  rebalance_requests,
}
use open_tela.Simulator.Cluster.Handlers.{after_engine_step, handle_batch_form}
use open_tela.Simulator.Cluster.Ledger.{Ledger, ledger}
use open_tela.Simulator.Cluster.Machine.{
  LedgerStep, rests, arrives, rejects, completes, fails, recovers,
}

module _ {P : Type 0} where
  abbrev pub Moves :
      EventData
      → (ClusterManager P × EventLoop → Result LoopError (ClusterManager P × EventLoop))
      → Type 0
  Moves x f =
      (m : ClusterManager P) (l : EventLoop) (after : ClusterManager P × EventLoop)
      → f (m, l) ≡ ok after
      → LedgerStep x (ledger m) (ledger after.0)

  -- The call returned this manager, and the ledger takes a step to it.
  pub moved_to :
      (x : EventData) (a : Ledger) (m : ClusterManager P) (l : EventLoop)
      (after : ClusterManager P × EventLoop)
      → ◌≡◌ {A = Result LoopError (ClusterManager P × EventLoop)} (ok (m, l)) (ok after)
      → LedgerStep x a (ledger m)
      → LedgerStep x a (ledger after.0)
  moved_to x a m l after h =
      subst (λ (y : ClusterManager P × EventLoop). LedgerStep x a (ledger y.0)) (ok-injective h)

  -- The manager is `m` whatever the loop is behind the calls before.
  pub moved_behind :
      (x : EventData) (a : Ledger) (r : Result LoopError EventLoop) (m : ClusterManager P)
      (after : ClusterManager P × EventLoop)
      → (r >>= λ l'. ok (m, l')) ≡ ok after
      → LedgerStep x a (ledger m)
      → LedgerStep x a (ledger after.0)
  moved_behind x a r m after h step =
      let (l', done, rest) = >>=-eq-ok r (λ l'. ok (m, l')) h in moved_to x a m l' after rest step

module _ {P : Type 0} (w : World P) where
  pub reject_request-Moves :
      (x : EventData) (h : ℕ) (reason : String) → Moves x (reject_request w h reason)
  unfolding reject_request
  reject_request-Moves x h reason m l after r =
      let id = (m.store h).req_id in
      elim (Option-cases (get id m.active_requests)) [
        | inl n ↦ cc (rw (n, reject_request) at r)
        | inr (k, found) ↦
            moved_to x (ledger m) _ l after (rw (found, reject_request) at r)
              (rejects id k (ledger m) found)
      ]

  pub placed_on-Moves :
      (x : EventData) (id : String) (d : PlacementDecision) → Moves x (placed_on w id d)
  unfolding placed_on record_placement_decision
  placed_on-Moves x id d m l after r =
      moved_behind x (ledger m) (schedule_engine_step (d.target_engine).engine_id l) _ after r
        (rests (ledger m))

  pub after_request-Moves :
      (x : EventData) (id : String) (h : ℕ) (d : PlacementDecision)
      (r : Result EngineError (Bool × (ServingEngine × Store)))
      → Moves x (after_request w id h d r)
  unfolding after_request
  after_request-Moves x id h d (raised e) m l after r = cc
  after_request-Moves x id h d (ok (success, moved)) m l after r =
      let (l', drained, rest) = >>=-eq-ok (handle_engine_events (moved.0).outbox l) _ r in
      elim (Bool-cases success) [
        | inl t ↦ placed_on-Moves x id d _ l' after (rw t at rest)
        | inr f ↦ reject_request-Moves x h _ _ l' after (rw f at rest)
      ]

  pub carry_out-Moves :
      (x : EventData) (id : String) (h : ℕ) (d : Option PlacementDecision)
      → Moves x (carry_out w id h d)
  unfolding carry_out
  carry_out-Moves x id h none m l after r = reject_request-Moves x h _ m l after r
  carry_out-Moves x id h (some d) m l after r =
      after_request-Moves x id h d (add_request h (d.target_engine, m.store)) m l after r

  pub arrival_of-Moves : (t : ℕ) (x : EventData) → Moves x (arrival_of w t x)
  unfolding arrival_of arrive
  arrival_of-Moves t (EventData.arrival id model i o) m l after r =
      moved_behind _ (ledger m) (schedule_event (placement_event id t) l) _ after r
        (arrives id model i o m.next_object (ledger m))
  arrival_of-Moves t _ m l after r = cc

  pub handle_placement_decision-Moves :
      (v : Event) → Moves v.contents (handle_placement_decision w v)
  unfolding handle_placement_decision place
  handle_placement_decision-Moves v m l after r = elim (Option-cases (request_id_of v.contents)) [
    | inl e ↦ cc (rw (e, handle_placement_decision) at r)
    | inr (id, e) ↦
        let r' = rw (e, handle_placement_decision) at r in
        elim (Option-cases (get id m.active_requests)) [
          | inl g ↦
              moved_to v.contents (ledger m) m l after (rw (g, handle_placement_decision) at r')
                (rests (ledger m))
          | inr (h, g) ↦
              carry_out-Moves v.contents id h (decided_by w m h).0 _ l after
                (rw (g, handle_placement_decision) at r')
        ]
  ]

  pub handle_request_complete-Moves : (v : Event) → Moves v.contents (handle_request_complete w v)
  unfolding handle_request_complete complete
  handle_request_complete-Moves v m l after r = elim (Option-cases (request_id_of v.contents)) [
    | inl e ↦ cc (rw (e, handle_request_complete) at r)
    | inr (id, e) ↦
        let r' = rw (e, handle_request_complete) at r in
        elim (Option-cases (get id m.active_requests)) [
          | inl g ↦
              moved_to v.contents (ledger m) m l after (rw (g, handle_request_complete) at r')
                (rests (ledger m))
          | inr (h, g) ↦
              moved_to v.contents (ledger m) _ l after (rw (g, handle_request_complete) at r')
                (completes id h (ledger m) g)
        ]
  ]

  pub clear_request_queue-Moves :
      (x : EventData) (n : String) (a : Ledger) (m : ClusterManager P) (l : EventLoop)
      (after : ClusterManager P × EventLoop)
      → clear_request_queue n (m, l) ≡ ok after
      → LedgerStep x a (ledger m)
      → LedgerStep x a (ledger after.0)
  unfolding clear_request_queue
  clear_request_queue-Moves x n a m l after r s = elim (Option-cases (get n m.serving_engines)) [
    | inl e ↦ moved_to x a m l after (rw (e, clear_request_queue) at r) s
    | inr (engine, e) ↦
        moved_behind x a (requeue m.store engine.request_queue l) _ after
          (rw (e, clear_request_queue) at r) s
  ]

  pub rebalance_requests-Moves :
      (x : EventData) (n : String) (a : Ledger) (m : ClusterManager P) (l : EventLoop)
      (after : ClusterManager P × EventLoop)
      → rebalance_requests (some n) (m, l) ≡ ok after
      → LedgerStep x a (ledger m)
      → LedgerStep x a (ledger after.0)
  unfolding rebalance_requests
  rebalance_requests-Moves x n a m l after r s = elim (Bool-cases (n == "")) [
    | inl t ↦ moved_to x a m l after (rw t at r) s
    | inr f ↦ clear_request_queue-Moves x n a m l after (rw f at r) s
  ]

  pub handle_node_online-Moves : (v : Event) → Moves {P = P} v.contents (handle_node_online v)
  unfolding handle_node_online node_online
  handle_node_online-Moves v m l after r = elim (Option-cases (node_id_of v.contents)) [
    | inl e ↦ cc (rw (e, handle_node_online) at r)
    | inr (n, e) ↦
        let r' = rw (e, handle_node_online) at r in
        elim (Bool-cases (contains n m.offline_nodes)) [
          | inl t ↦ moved_to v.contents (ledger m) _ l after (rw t at r') (recovers n (ledger m) t)
          | inr f ↦ moved_to v.contents (ledger m) m l after (rw f at r') (rests (ledger m))
        ]
  ]

  pub handle_node_offline-Moves : (v : Event) → Moves {P = P} v.contents (handle_node_offline v)
  unfolding handle_node_offline mark_offline
  handle_node_offline-Moves v m l after r = elim (Option-cases (node_id_of v.contents)) [
    | inl e ↦ cc (rw (e, handle_node_offline) at r)
    | inr (n, e) ↦
        let r' = rw (e, handle_node_offline) at r in
        elim (Bool-cases (contains n m.online_nodes)) [
          | inl t ↦
              rebalance_requests-Moves v.contents n (ledger m) _ l after (rw t at r')
                (fails n (ledger m) t)
          | inr f ↦ moved_to v.contents (ledger m) m l after (rw f at r') (rests (ledger m))
        ]
  ]

  pub after_engine_step-Moves :
      (x : EventData) (n : String) (r : Result EngineError (List Event × (ServingEngine × Store)))
      → Moves x (after_engine_step w n r)
  unfolding after_engine_step
  after_engine_step-Moves x n (raised e) m l after r = cc
  after_engine_step-Moves x n (ok (events, moved)) m l after r =
      let (l₁, drained, r₁) = >>=-eq-ok (handle_engine_events (moved.0).outbox l) _ r in
      let (l₂, queued, r₂) = >>=-eq-ok (schedule_engine_events events l₁) _ r₁ in
      moved_behind x (ledger m) (schedule_next_step n moved.0 l₂) _ after r₂ (rests (ledger m))

  pub handle_batch_form-Moves : (v : Event) → Moves v.contents (handle_batch_form w v)
  unfolding handle_batch_form
  handle_batch_form-Moves v m l after r = elim (Option-cases (get v.target m.serving_engines)) [
    | inl e ↦
        moved_to v.contents (ledger m) m l after (rw (e, handle_batch_form) at r) (rests (ledger m))
    | inr (engine, e) ↦
        after_engine_step-Moves v.contents v.target _ m l after (rw (e, handle_batch_form) at r)
  ]
