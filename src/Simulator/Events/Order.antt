-- ===== src/Simulator/Events/Order.antt =====
-- events.py: the order of the queue, and time.
use open_tela.Prelude.{
  ◌⊎◌, ℕ, ◌+◌, ◌≤◌, ◌<◌, ◌≡◌, refl, false, ltb, Bool-cases, List, length, item, sum_by, sum_by-zero,
  item-sum_by_zero, some, ok, raised, arith, if◌then◌else◌, inl, inr, ◌∙◌,
}
use open_tela.Simulator.Heapq.{heappush, heappop, IsHeap}
use open_tela.Simulator.Heapq.Laws.{heappush_lem, heappop_lem}
use open_tela.Simulator.Events.{
  Event, EventPriority, highest, priority_value, precedes, event_rank, no_event, EventLoop,
  LoopError, new_loop, schedule_event, enter_event,
}

priority_bounds : (p : EventPriority) → (1 ≤ priority_value p) × (priority_value p ≤ 4)
priority_bounds highest = omega arith
priority_bounds _ = omega arith

-- The rank that the heap compares is the order of `Event.__lt__`.
pub precedes-rank : (a b : Event) → precedes a b ≡ ltb (event_rank a) (event_rank b)
unfolding precedes event_rank
precedes-rank a b = ground (arith, priority_bounds a.priority, priority_bounds b.priority)

rank-le-time : (a b : Event) → event_rank a ≤ event_rank b → a.timestamp ≤ b.timestamp
unfolding event_rank
rank-le-time a b h = omega (arith, priority_bounds a.priority, priority_bounds b.priority)

-- 1 for an event before the time `t`.
abbrev early : ℕ → Event → ℕ
early t e = if ltb e.timestamp t then 1 else 0

-- The queue is a heap, and no event of it lies in the past.
pub record Inv (l : EventLoop) : Type 0 where
  pub heap : IsHeap event_rank no_event l.event_queue
  pub none_early : sum_by (early l.current_time) l.event_queue ≡ 0

pub Inv-time :
    (l : EventLoop) (i : ℕ)
    → Inv l
    → i < length l.event_queue
    → l.current_time ≤ (item no_event l.event_queue i).timestamp
Inv-time l i v h =
    ground (arith, item-sum_by_zero (early l.current_time) no_event l.event_queue i v.none_early h)

-- On a loop with the invariant, an event is refused exactly if it lies in the past; else it joins
-- the queue, which keeps its events, the clock stands still, and the invariant is kept.
pub schedule_event_lem :
    (e : Event) (l : EventLoop)
    → Inv l
    → (e.timestamp < l.current_time) × (schedule_event e l ≡ raised LoopError.event_in_the_past)
      ⊎ (l' : EventLoop) × (l.current_time ≤ e.timestamp)
        × (schedule_event e l ≡ ok l')
        × Inv l'
        × (l'.current_time ≡ l.current_time)
        × ((f : Event → ℕ) → sum_by f l'.event_queue ≡ sum_by f l.event_queue + f e)
unfolding schedule_event
schedule_event_lem e l v = elim (Bool-cases (ltb e.timestamp l.current_time)) [
  | inl past ↦ inl (ground arith, rw past)
  | inr now ↦
      let (heap, sums) = heappush_lem event_rank no_event l.event_queue e v.heap in
      let queue = heappush event_rank no_event l.event_queue e in
      inr (
        record l { event_queue = queue },
        ground arith,
        rw now,
        record {
          heap = heap;
          none_early = ground (arith, sums (early l.current_time), v.none_early);
        },
        refl,
        sums,
      )
]

-- On a loop with the invariant, the event that is popped is preceded by no event of the queue and
-- does not lie in the past; the rest of the queue keeps the other events, and entering the event
-- keeps the invariant.
pub enter_event_lem :
    (l : EventLoop) (e : Event) (rest : List Event)
    → Inv l
    → heappop event_rank no_event l.event_queue ≡ some (e, rest)
    → Inv (enter_event e rest l)
      × (l.current_time ≤ e.timestamp)
      × ((i : ℕ) → i < length l.event_queue → precedes (item no_event l.event_queue i) e ≡ false)
      × ((f : Event → ℕ) → sum_by f l.event_queue ≡ f e + sum_by f rest)
unfolding enter_event
enter_event_lem l e rest v h =
    let (heap, least, sums) = heappop_lem event_rank no_event l.event_queue e rest v.heap h in
    let late : (i : ℕ)
        → i < length l.event_queue
        → early e.timestamp (item no_event l.event_queue i) ≡ 0 =
      λ i hi. ground (arith, rank-le-time e (item no_event l.event_queue i) (least i hi)) in
    let all_late = sum_by-zero (early e.timestamp) no_event l.event_queue late in
    (
      record { heap = heap; none_early = omega (arith, all_late, sums (early e.timestamp)) },
      ground (arith, sums (early l.current_time), v.none_early),
      λ i hi. precedes-rank (item no_event l.event_queue i) e ∙ ground (arith, least i hi),
      sums,
    )

pub new_loop-Inv : Inv new_loop
unfolding new_loop
new_loop-Inv = record { heap = λ i p h. absurd (omega arith); none_early = refl }
