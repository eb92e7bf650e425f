-- ===== src/Simulator/Events.antt =====
-- contrib/serving-simulator/simulator/core/events.py: events, their order, and the event loop.
-- A moment is a number of ticks of one microsecond. `event_id`, a fresh UUID that nothing reads, and
-- the printed warnings are left out.
pub mod Order
pub mod Running
pub mod Stable
pub mod Clearing
use open_tela.Prelude.{
  ℕ, zero, suc, ◌+◌, ◌-◌, ◌*◌, ◌≤◌, ◌<◌, ◌≡◌, ◌≢◌, refl, Bool, true, false, ltb, leb, nat_beq,
  nat_beq_iff, not, ◌&&◌, if◌then◌else◌, List, [], ◌∷◌, length, take, Option, none, some, String,
  Eq, ◌==◌, string_eq, nat_eq, Result, ok, raised, arith, ◌>>=◌,
}
use open_tela.Prelude.Dict.{Dict, get, put, get_or}
use open_tela.Simulator.Heapq.{heappush, heappop, IsHeap}

pub data EventType : Type 0 where
  request_arrival node_online node_offline placement_decision load_balance : EventType
  prefill_start prefill_complete decode_step batch_form memory_check : EventType
  model_load model_unload request_complete : EventType

abbrev pub type_code : EventType → ℕ
type_code request_arrival = 0
type_code node_online = 1
type_code node_offline = 2
type_code placement_decision = 3
type_code load_balance = 4
type_code prefill_start = 5
type_code prefill_complete = 6
type_code decode_step = 7
type_code batch_form = 8
type_code memory_check = 9
type_code model_load = 10
type_code model_unload = 11
type_code request_complete = 12

pub data EventPriority : Type 0 where
  highest high medium low : EventPriority

-- `priority.value`
abbrev pub priority_value : EventPriority → ℕ
priority_value highest = 1
priority_value high = 2
priority_value medium = 3
priority_value low = 4

-- The dictionaries that the simulator puts into an event.
pub data EventData : Type 0 where
  no_data : EventData
  arrival : (request_id model : String) (input_length output_length : ℕ) → EventData
  of_request : (request_id : String) → EventData
  of_node : (node_id : String) → EventData
  loaded : (model_id : String) (memory_usage : ℕ) → EventData
  unloaded : (model_id : String) → EventData
  prefilled : (request_id : String) (prefill_time : ℕ) → EventData
  completed : (request_id : String) (total_tokens completion_time : ℕ) → EventData

pub record Event : Type 0 where
  pub timestamp : ℕ
  pub event_type : EventType
  pub target : String
  pub contents : EventData
  pub priority : EventPriority

-- `Event.__lt__`
unfoldable pub precedes : Event → Event → Bool
precedes a b =
    if not (nat_beq a.timestamp b.timestamp)
    then ltb a.timestamp b.timestamp
    else ltb (priority_value a.priority) (priority_value b.priority)

-- The number by which `heapq` is told the order.
unfoldable pub event_rank : Event → ℕ
event_rank e = e.timestamp * 5 + priority_value e.priority

-- What a list access outside the list would give; no access is.
abbrev pub no_event : Event
no_event = record {
  timestamp = 0;
  event_type = load_balance;
  target = "";
  contents = no_data;
  priority = low;
}

pub record Statistics : Type 0 where
  pub events_processed : ℕ
  pub total_simulation_time : ℕ
  pub events_by_type : Dict ℕ ℕ

pub record EventLoop : Type 0 where
  pub event_queue : List Event
  pub current_time : ℕ
  pub running : Bool
  pub statistics : Statistics

pub data LoopError : Type 0 where
  event_in_the_past : LoopError
  handler_failed : LoopError

abbrev pub no_statistics : Statistics
no_statistics = record { events_processed = 0; total_simulation_time = 0; events_by_type = [] }

unfoldable pub new_loop : EventLoop
new_loop = record {
  event_queue = [];
  current_time = 0;
  running = false;
  statistics = no_statistics;
}

unfoldable pub schedule_event : Event → EventLoop → Result LoopError EventLoop
schedule_event e l =
    if ltb e.timestamp l.current_time
    then raised event_in_the_past
    else ok (record l { event_queue = heappush event_rank no_event l.event_queue e })

-- The loop just before the handler of a popped event runs.
unfoldable pub enter_event : Event → List Event → EventLoop → EventLoop
enter_event e rest l =
    let stats = l.statistics in
    let seen = get_or 0 (get (type_code e.event_type) stats.events_by_type) in
    record l {
      event_queue = rest;
      current_time = e.timestamp;
      statistics = record stats {
        events_processed = stats.events_processed + 1;
        events_by_type = put (type_code e.event_type) (seen + 1) stats.events_by_type;
      };
    }

-- The handlers are methods of the cluster manager: they change its state `S` and the loop.
abbrev pub Handlers : Type 0 → Type 0
Handlers S = EventType → Option (Event → S × EventLoop → Result LoopError (S × EventLoop))

-- `register_handler`
unfoldable pub register_handler :
    {S : Type 0}
    → EventType
    → (Event → S × EventLoop → Result LoopError (S × EventLoop))
    → Handlers S
    → Handlers S
register_handler t h handlers u = if nat_beq (type_code t) (type_code u) then some h else handlers u

-- `max_events and events_processed >= max_events`: a limit of 0 is no limit.
abbrev pub limit_reached : Option ℕ → ℕ → Bool
limit_reached none n = false
limit_reached (some m) n = not (nat_beq m 0) && leb m n

abbrev pub time_passed : Option ℕ → ℕ → Bool
time_passed none t = false
time_passed (some m) t = ltb m t

abbrev pub is_empty : List Event → Bool
is_empty [] = true
is_empty (e ∷ es) = false

-- The tests at the head of the `while` loop of `run`, in their order.
unfoldable pub halts : Option ℕ → Option ℕ → ℕ → EventLoop → Bool
halts max_time max_events n l =
    if not (l.running && not (is_empty l.event_queue))
    then true
    else if time_passed max_time l.current_time
    then true
    else limit_reached max_events n

module _ {S : Type 0} where
  -- What the loop does with the result of a step.
  abbrev pub after_step :
      Result LoopError (Bool × (S × EventLoop))
      → (S × EventLoop → Option (Result LoopError (S × EventLoop)))
      → Option (Result LoopError (S × EventLoop))
  after_step (raised x) again = some (raised x)
  after_step (ok (false, after)) again = some (ok after)
  after_step (ok (true, after)) again = again after

  unfoldable pub finish : S × EventLoop → S × EventLoop
  finish (s, l) = (
    s,
    record l {
      running = false;
      statistics = record (l.statistics) { total_simulation_time = l.current_time };
    },
  )

  -- What `run` does behind its loop.
  abbrev pub after_loop :
      Option (Result LoopError (S × EventLoop)) → Option (Result LoopError (S × EventLoop))
  unfolding finish
  after_loop none = none
  after_loop (some (raised x)) = some (raised x)
  after_loop (some (ok after)) = some (ok (finish after))

module _ {S : Type 0} (handlers : Handlers S) where
  -- An event type with no handler only prints a warning.
  unfoldable pub handle : Event → S × EventLoop → Result LoopError (S × EventLoop)
  handle e s = elim (handlers e.event_type) [ none ↦ ok s | some h ↦ h e s ]

  -- `EventLoop.step`: whether an event was processed.
  unfoldable pub step : S × EventLoop → Result LoopError (Bool × (S × EventLoop))
  unfolding handle
  step (s, l) = elim (heappop event_rank no_event l.event_queue) [
    | none ↦ ok (false, (s, l))
    | some (e, rest) ↦ handle e (s, enter_event e rest l) >>= λ after. ok (true, after)
  ]

  -- The `while` loop of `run`; `none` means that the fuel ran out.
  unfoldable pub run_loop :
      ℕ → Option ℕ → Option ℕ → ℕ → S × EventLoop → Option (Result LoopError (S × EventLoop))
  run_loop zero max_time max_events n (s, l) = none
  run_loop (suc fuel) max_time max_events n (s, l) =
      let next = after_step (step (s, l)) (run_loop fuel max_time max_events (n + 1)) in
      if halts max_time max_events n l then some (ok (s, l)) else next

  unfoldable pub run :
      ℕ → Option ℕ → Option ℕ → S × EventLoop → Option (Result LoopError (S × EventLoop))
  unfolding finish
  run fuel max_time max_events (s, l) =
      after_loop (run_loop fuel max_time max_events 0 (s, record l { running = true }))

unfoldable pub stop : EventLoop → EventLoop
stop l = record l { running = false }

-- `self.event_queue[0].timestamp`
unfoldable pub get_next_event_time : EventLoop → Option ℕ
get_next_event_time l = elim l.event_queue [ [] ↦ none | e ∷ es ↦ some e.timestamp ]

unfoldable pub peek_next_events : EventLoop → ℕ → List Event
peek_next_events l count = take count l.event_queue

-- The list comprehension of `clear_future_events`.
unfoldable pub keep_other_targets : String → List Event → List Event
keep_other_targets t [] = []
keep_other_targets t (e ∷ es) =
    let rest = keep_other_targets t es in if e.target == t then rest else e ∷ rest

unfoldable pub clear_future_events : Option String → EventLoop → EventLoop × ℕ
unfolding keep_other_targets
clear_future_events none l = (record l { event_queue = [] }, length l.event_queue)
clear_future_events (some t) l =
    let kept = keep_other_targets t l.event_queue in
    (record l { event_queue = kept }, length l.event_queue - length kept)

-- `reset`
unfoldable pub reset : EventLoop → EventLoop
reset l = record l {
  event_queue = [];
  current_time = 0;
  running = false;
  statistics = no_statistics;
}
