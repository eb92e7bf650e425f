-- ===== src/Simulator/Cluster/Handlers.antt =====
-- cluster_manager.py: the step of an engine, and the handlers that the manager registers.
use open_tela.Prelude.{
  List, Option, none, some, String, string_eq, nat_eq, Result, ok, raised, ◌>>=◌,
}
use mathlib.Core.Path.{◌≡◌, subst}
use open_tela.Prelude.Dict.{get}
use open_tela.Simulator.Events.{Event, EventType, EventLoop, LoopError, Handlers, handler_failed}
use open_tela.Simulator.Engine.State.{ServingEngine, EngineError, Store}
use open_tela.Simulator.Engine.Stepping.{step}
use open_tela.Simulator.Cluster.State.{ClusterManager, World}
use open_tela.Simulator.Cluster.Dispatch.{
  Handler, handle_engine_events, schedule_engine_events, schedule_next_step,
}
use open_tela.Simulator.Cluster.Requests.{
  handle_placement_decision, handle_request_arrival, handle_request_complete, with_engine,
}
use open_tela.Simulator.Cluster.Nodes.{handle_load_balance, handle_node_offline, handle_node_online}

module _ {P : Type 0} (w : World P) where
  -- The handlers whose body is `pass`.
  abbrev pub handle_nothing : Handler P
  handle_nothing v s = ok s

  -- What follows `engine.step(self.event_loop.current_time)`.
  unfoldable pub after_engine_step :
      String
      → Result EngineError (List Event × (ServingEngine × Store))
      → ClusterManager P × EventLoop
      → Result LoopError (ClusterManager P × EventLoop)
  after_engine_step n (raised x) s = raised handler_failed
  after_engine_step n (ok (events, after)) (m, l) =
      handle_engine_events (after.0).outbox l >>= λ l₁. schedule_engine_events events l₁ >>= λ l₂.
      schedule_next_step n after.0 l₂ >>= λ l₃. ok (with_engine n after m, l₃)

  abbrev pub step_engine :
      String
      → ServingEngine
      → ClusterManager P × EventLoop
      → Result LoopError (ClusterManager P × EventLoop)
  step_engine n e (m, l) =
      after_engine_step n
        (step (w.prefill_time n) (w.decode_time n) w.listing (some l.current_time) (e, m.store))
        (m, l)

  unfoldable pub handle_batch_form : Handler P
  handle_batch_form v (m, l) = elim (get v.target m.serving_engines) [
    | none ↦ ok (m, l)
    | some e ↦ step_engine v.target e (m, l)
  ]

  -- `_register_event_handlers`
  unfoldable pub handlers : Handlers (ClusterManager P)
  handlers t = elim t [
    | EventType.request_arrival ↦ some (handle_request_arrival w)
    | EventType.placement_decision ↦ some (handle_placement_decision w)
    | EventType.node_online ↦ some handle_node_online
    | EventType.node_offline ↦ some handle_node_offline
    | EventType.request_complete ↦ some (handle_request_complete w)
    | EventType.load_balance ↦ some handle_load_balance
    | EventType.batch_form ↦ some handle_batch_form
    | _ ↦ some handle_nothing
  ]

module _ {P : Type 0} (w : World P) (Q : Handler P → Type 0) where
  abbrev HoldsOf : Option (Handler P) → Type 0
  HoldsOf none = Unit
  HoldsOf (some f) = Q f

  -- What holds of every method holds of every handler that is registered.
  pub every_handler :
      Q (handle_request_arrival w)
      → Q (handle_placement_decision w)
      → Q handle_node_online
      → Q handle_node_offline
      → Q (handle_request_complete w)
      → Q (handle_batch_form w)
      → Q handle_load_balance
      → Q (handle_nothing w)
      → (t : EventType) (f : Handler P) → handlers w t ≡ some f
      → Q f
  unfolding handlers
  every_handler a p on off c b balance pass t f found = subst HoldsOf found (registered t)
    where
      registered : (u : EventType) → HoldsOf (handlers w u)
      registered EventType.request_arrival = a
      registered EventType.placement_decision = p
      registered EventType.node_online = on
      registered EventType.node_offline = off
      registered EventType.request_complete = c
      registered EventType.load_balance = balance
      registered EventType.batch_form = b
      registered _ = pass
