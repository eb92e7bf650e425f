-- ===== src/Simulator/Examples/Loop.antt =====
-- events.py: tests, and the theorems applied to small queues.
use mathlib.Core.Path.{subst}
use open_tela.Prelude.{
  ℕ, zero, suc, ◌+◌, ◌≤◌, ◌<◌, ◌≡◌, refl, ap, ◌∙◌, ◌⊎◌, false, List, [], ◌∷◌, Option, none, some,
  String, ok, raised, arith, item, sum_by, Result, ok-injective,
}
use open_tela.Prelude.Dict.{get, put}
use open_tela.Simulator.Heapq.{heappop, siftup, siftdown, sink, smaller_child, IsHeap}
use open_tela.Simulator.Events.{
  Event, batch_form, high, no_data, EventLoop, LoopError, Handlers, precedes, event_rank, no_event,
  schedule_event, enter_event, step, run, run_loop, finish, halts, handle, clear_future_events,
  no_statistics,
}
use open_tela.Simulator.Events.Order.{Inv, schedule_event_lem, enter_event_lem}
use open_tela.Simulator.Events.Running.{Keeps, run-Inv, run_total}
use open_tela.Simulator.Events.Clearing.{
  aimed, other, clear_future_events_lem, clear_future_events-out_of_order,
}

abbrev at : ℕ → String → Event
at t target = record {
  timestamp = t;
  event_type = batch_form;
  target = target;
  contents = no_data;
  priority = high;
}

abbrev loop_of : List Event → EventLoop
loop_of es = record {
  event_queue = es;
  current_time = 0;
  running = false;
  statistics = no_statistics;
}

abbrev queue : List Event
queue = at 2 "n1" ∷ at 5 "n2" ∷ []

queue-IsHeap : IsHeap event_rank no_event queue
unfolding event_rank
queue-IsHeap zero p h = absurd (omega arith)
queue-IsHeap (suc zero) p h = omega arith
queue-IsHeap (suc (suc i)) p h = absurd (omega arith)

queue-Inv : Inv (loop_of queue)
queue-Inv = record { heap = queue-IsHeap; none_early = refl }

-- Every event is counted by its handler, and nothing else happens.
abbrev counting : Handlers ℕ
counting t = some (λ e s. ok (suc s.0, s.1))

counting-Keeps : Keeps counting
counting-Keeps t h e s l after found v ran =
    let same : (suc s, l) ≡ after = ok-injective (ap (λ o. applied o e (s, l)) found ∙ ran) in
    subst (λ (x : ℕ × EventLoop). Inv x.1 × (l.current_time ≤ x.1.current_time)) same
      (v, omega arith)
  where
    applied :
        Option (Event → ℕ × EventLoop → Result LoopError (ℕ × EventLoop))
        → Event
        → ℕ × EventLoop
        → Result LoopError (ℕ × EventLoop)
    applied none e s = ok s
    applied (some f) e s = f e s

schedule_event_lem_example :
    (3 < 0) × (schedule_event (at 3 "n1") (loop_of queue) ≡ raised LoopError.event_in_the_past)
    ⊎ (l' : EventLoop) × (0 ≤ 3)
      × (schedule_event (at 3 "n1") (loop_of queue) ≡ ok l')
      × Inv l'
      × (l'.current_time ≡ 0)
      × ((f : Event → ℕ) → sum_by f l'.event_queue ≡ sum_by f queue + f (at 3 "n1"))
schedule_event_lem_example = schedule_event_lem (at 3 "n1") (loop_of queue) queue-Inv

enter_event_lem_example :
    Inv (enter_event (at 2 "n1") (at 5 "n2" ∷ []) (loop_of queue))
    × (0 ≤ 2)
    × ((i : ℕ) → i < 2 → precedes (item no_event queue i) (at 2 "n1") ≡ false)
    × ((f : Event → ℕ) → sum_by f queue ≡ f (at 2 "n1") + sum_by f (at 5 "n2" ∷ []))
unfolding heappop siftup siftdown sink smaller_child
enter_event_lem_example =
    enter_event_lem (loop_of queue) (at 2 "n1") (at 5 "n2" ∷ []) queue-Inv refl

-- The loop after both events.
abbrev done : ℕ × EventLoop
done = (
  2,
  record {
    event_queue = [];
    current_time = 5;
    running = false;
    statistics = record {
      events_processed = 2;
      total_simulation_time = 5;
      events_by_type = (8, 2) ∷ [];
    };
  },
)

run-Inv_example :
    Inv done.1
    × (0 ≤ 5)
    × (done.1.running ≡ false)
    × (done.1.statistics.total_simulation_time ≡ done.1.current_time)
unfolding run run_loop step finish halts handle enter_event heappop siftup siftdown sink
    smaller_child get put
run-Inv_example = run-Inv counting counting-Keeps 3 none none 0 (loop_of queue) done queue-Inv refl

run_total_example :
    (r : Result LoopError (ℕ × EventLoop)) × (run counting 2 none (some 1) (0, loop_of queue)
      ≡ some r)
run_total_example = run_total counting 1 none 0 (loop_of queue) (omega arith)

clear_future_events_lem_example :
    let (l', count) = clear_future_events (some "n1") (loop_of queue) in
    (count ≡ sum_by (aimed "n1") queue)
    × (sum_by (aimed "n1") l'.event_queue ≡ 0)
    × ((f : Event → ℕ) → sum_by f l'.event_queue ≡ sum_by (other "n1" f) queue)
    × (l'.current_time ≡ 0)
clear_future_events_lem_example = clear_future_events_lem "n1" (loop_of queue)

abbrev three : List Event
three = at 1 "n1" ∷ at 5 "n2" ∷ at 3 "n2" ∷ []

clear_future_events-out_of_order_example :
    let l' = (clear_future_events (some "n1") (loop_of three)).0 in
    (heappop event_rank no_event l'.event_queue ≡ some (at 5 "n2", at 3 "n2" ∷ []))
    × (¬ Inv (enter_event (at 5 "n2") (at 3 "n2" ∷ []) l'))
clear_future_events-out_of_order_example =
    clear_future_events-out_of_order "n1" (loop_of three) (at 1 "n1") (at 5 "n2") (at 3 "n2") refl
      refl refl refl (omega arith)
