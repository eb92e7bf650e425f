-- ===== src/Simulator/Cluster/Progress.antt =====
-- cluster_manager.py: the next step of an engine.
use open_tela.Prelude.{
  ℕ, ◌+◌, ◌≤◌, ◌<◌, ◌≡◌, sym, ap, ◌∙◌, true, List, [], some, String, string_eq, Result, ok, raised,
  >>=-eq-ok, ok-injective, inl, inr, arith, sum_by,
}
use mathlib.Core.Path.{subst}
use open_tela.Prelude.Dict.{get, get-put_self}
use open_tela.Simulator.Events.{Event, EventLoop, schedule_event}
use open_tela.Simulator.Events.Order.{Inv, schedule_event_lem}
use open_tela.Simulator.Engine.State.{ServingEngine, EngineError, Store}
use open_tela.Simulator.Cluster.State.{ClusterManager, World}
use open_tela.Simulator.Cluster.Dispatch.{
  handle_engine_events, schedule_engine_events, schedule_next_step, step_event, has_pending_work,
  next_step_time,
}
use open_tela.Simulator.Cluster.Requests.{with_engine}
use open_tela.Simulator.Cluster.Handlers.{after_engine_step, handle_batch_form}
use open_tela.Simulator.Cluster.Growth.{
  Grows-trans, handle_engine_events-Grows, schedule_engine_events-Grows,
}

next_step_time_later : (e : ServingEngine) (now : ℕ) → now < next_step_time e now
unfolding next_step_time
next_step_time_later e now = ground arith

-- The queue has gained the event `x`.
abbrev pub Gains : Event → EventLoop → EventLoop → Type 0
Gains x l l' = (f : Event → ℕ) → sum_by f l.event_queue + f x ≤ sum_by f l'.event_queue

schedule_event-Gains :
    (x : Event) (l l' : EventLoop) → Inv l → schedule_event x l ≡ ok l' → Gains x l l'
schedule_event-Gains x l l' v h = elim (schedule_event_lem x l v) [
  | inl (past, r) ↦ cc
  | inr (q, now, r, v', t, sums) ↦
      subst (Gains x l) (ok-injective (sym r ∙ h)) (λ f. omega (arith, sums f))
]

schedule_next_step-Gains :
    (n : String) (e : ServingEngine) (l l' : EventLoop)
    → Inv l
    → has_pending_work e ≡ true
    → schedule_next_step n e l ≡ ok l'
    → Gains (step_event n (next_step_time e l.current_time)) l l'
unfolding schedule_next_step
schedule_next_step-Gains n e l l' v work h = schedule_event-Gains _ l l' v (rw work at h)

module _ {P : Type 0} (w : World P) where
  after_engine_step-Gains :
      (n : String) (r : Result EngineError (List Event × (ServingEngine × Store)))
      (m : ClusterManager P) (l : EventLoop) (after : ClusterManager P × EventLoop)
      (e' : ServingEngine)
      → Inv l
      → after_engine_step w n r (m, l) ≡ ok after
      → get n after.0.serving_engines ≡ some e'
      → has_pending_work e' ≡ true
      → (t : ℕ) × (l.current_time < t) × Gains (step_event n t) l after.1
  unfolding after_engine_step has_pending_work
  after_engine_step-Gains n (raised x) m l after e' v h found work = cc
  after_engine_step-Gains n (ok (events, moved)) m l after e' v h found work =
      let (l₁, drained, h₁) = >>=-eq-ok (handle_engine_events (moved.0).outbox l) _ h in
      let (l₂, queued, h₂) = >>=-eq-ok (schedule_engine_events events l₁) _ h₁ in
      let (l₃, stepped, h₃) = >>=-eq-ok (schedule_next_step n moved.0 l₂) _ h₂ in
      let (v₂, still, grown) =
        Grows-trans (handle_engine_events-Grows (moved.0).outbox l l₁ drained)
          (schedule_engine_events-Grows events l₁ l₂ queued) v in
      let same : (with_engine n moved m, l₃) ≡ after = ok-injective h₃ in
      let kept : some (record (moved.0) { outbox = [] }) ≡ some e' =
        sym (get-put_self n (record (moved.0) { outbox = [] }) m.serving_engines)
        ∙ ap (λ (y : ClusterManager P × EventLoop). get n y.0.serving_engines) same
        ∙ found in
      let engine : record (moved.0) { outbox = [] } ≡ e' = cc in
      let busy : has_pending_work moved.0 ≡ true = ap has_pending_work engine ∙ work in
      let t = next_step_time moved.0 l₂.current_time in
      let gained = schedule_next_step-Gains n moved.0 l₂ l₃ v₂ busy stepped in
      (
        t,
        omega (arith, still, next_step_time_later moved.0 l₂.current_time),
        subst (λ (y : ClusterManager P × EventLoop). Gains (step_event n t) l y.1) same
            (λ f. omega (arith, grown f, gained f)),
      )

  -- If the loop has its invariant, the handler of a batch formation returns, the event's engine is
  -- registered, and it then has work left, then a step of that engine has been queued for a time
  -- later than the present one, and no queued event is gone.
  pub handle_batch_form-Gains :
      (v : Event) (m : ClusterManager P) (l : EventLoop) (after : ClusterManager P × EventLoop)
      (e e' : ServingEngine)
      → Inv l
      → get v.target m.serving_engines ≡ some e
      → handle_batch_form w v (m, l) ≡ ok after
      → get v.target after.0.serving_engines ≡ some e'
      → has_pending_work e' ≡ true
      → (t : ℕ) × (l.current_time < t) × Gains (step_event v.target t) l after.1
  unfolding handle_batch_form
  handle_batch_form-Gains v m l after e e' inv has ran found work =
      after_engine_step-Gains v.target _ m l after e' inv (rw (has, handle_batch_form) at ran) found
        work
