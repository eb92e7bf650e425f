-- ===== src/Simulator/Cluster/Dispatch.antt =====
-- cluster_manager.py: how the manager puts events into the loop.
-- An engine's call hands its events to `_handle_engine_event` while it runs; the model passes them
-- on behind the call, in their order, which is the same since the engine does not read the loop.
use open_tela.Prelude.{
  ℕ, ◌+◌, max, Bool, true, false, not, ◌||◌, List, [], ◌∷◌, Option, none, some, String, string_eq,
  nat_eq, Result, ok, ◌>>=◌, ltb, leb, if◌then◌else◌,
}
use open_tela.Simulator.Events.{
  Event, EventType, EventPriority, EventData, EventLoop, LoopError, schedule_event,
}
use open_tela.Simulator.Engine.State.{ServingEngine, Batch, Store, is_empty}
use open_tela.Simulator.Cluster.State.{ClusterManager}

-- `event.data['request_id']`; `none` is the KeyError.
abbrev pub request_id_of : EventData → Option String
request_id_of (EventData.arrival id model i o) = some id
request_id_of (EventData.of_request id) = some id
request_id_of (EventData.prefilled id t) = some id
request_id_of (EventData.completed id n t) = some id
request_id_of _ = none

-- `event.data['node_id']`
abbrev pub node_id_of : EventData → Option String
node_id_of (EventData.of_node n) = some n
node_id_of _ = none

-- `_handle_engine_event`
unfoldable pub handle_engine_event : Event → EventLoop → Result LoopError EventLoop
handle_engine_event v l = schedule_event (record v { timestamp = l.current_time }) l

unfoldable pub handle_engine_events : List Event → EventLoop → Result LoopError EventLoop
handle_engine_events [] l = ok l
handle_engine_events (v ∷ vs) l = handle_engine_event v l >>= λ l'. handle_engine_events vs l'

abbrev pub placement_event : String → ℕ → Event
placement_event id t = record {
  timestamp = t;
  event_type = EventType.placement_decision;
  target = "cluster_manager";
  contents = EventData.of_request id;
  priority = EventPriority.medium;
}

abbrev pub step_event : String → ℕ → Event
step_event engine_id t = record {
  timestamp = t;
  event_type = EventType.batch_form;
  target = engine_id;
  contents = EventData.no_data;
  priority = EventPriority.high;
}

-- `_schedule_engine_step`
unfoldable pub schedule_engine_step : String → EventLoop → Result LoopError EventLoop
schedule_engine_step engine_id l = schedule_event (step_event engine_id l.current_time) l

-- The placement events of `_rebalance_requests`.
unfoldable pub requeue : Store → List ℕ → EventLoop → Result LoopError EventLoop
requeue s [] l = ok l
requeue s (h ∷ hs) l =
    schedule_event (placement_event (s h).req_id l.current_time) l >>= λ l'. requeue s hs l'

-- The loop over the events of a step, those of the past moved to the present.
abbrev pub not_before : ℕ → Event → Event
not_before now v = if ltb v.timestamp now then record v { timestamp = now } else v

unfoldable pub schedule_engine_events : List Event → EventLoop → Result LoopError EventLoop
schedule_engine_events [] l = ok l
schedule_engine_events (v ∷ vs) l =
    schedule_event (not_before l.current_time v) l >>= λ l'. schedule_engine_events vs l'

abbrev pub is_some {ℓ} : {A : Type ℓ} → Option A → Bool
is_some none = false
is_some (some a) = true

abbrev pub is_filled : List ℕ → Bool
is_filled [] = false
is_filled (h ∷ hs) = true

abbrev pub batch_pending : Option Batch → Bool
batch_pending none = false
batch_pending (some b) = not (is_empty b)

unfoldable pub has_pending_work : ServingEngine → Bool
has_pending_work e =
    is_filled e.prefill_queue
    || is_some e.current_prefill_request
    || is_filled e.decode_ready_requests
    || batch_pending e.current_decode_batch

-- The time of the next step; the source adds 1e-6 s, which is one tick.
unfoldable pub next_step_time : ServingEngine → ℕ → ℕ
next_step_time e now = let t = max e.time_cursor now in if leb t now then now + 1 else t

unfoldable pub schedule_next_step : String → ServingEngine → EventLoop → Result LoopError EventLoop
schedule_next_step engine_id e l =
    if has_pending_work e
    then schedule_event (step_event engine_id (next_step_time e l.current_time)) l
    else ok l

-- A handler of the manager.
abbrev pub Handler : Type 0 → Type 0
Handler P = Event → ClusterManager P × EventLoop → Result LoopError (ClusterManager P × EventLoop)
