-- ===== src/Simulator/Events/Clearing.antt =====
-- events.py: what `clear_future_events` removes, and what it does to the order of the queue.
use open_tela.Prelude.{
  ℕ, ◌+◌, ◌<◌, ◌≡◌, refl, true, false, if◌then◌else◌, List, [], ◌∷◌, length, sum_by, some, String,
  ◌==◌, string_eq, arith, Bool-cases, inl, inr,
}
use open_tela.Simulator.Heapq.{heappop, siftup, sink, siftdown, smaller_child}
use open_tela.Simulator.Events.{
  Event, event_rank, no_event, EventLoop, enter_event, keep_other_targets, clear_future_events,
}
use open_tela.Simulator.Events.Order.{Inv}

-- 1 for an event of the target.
abbrev pub aimed : String → Event → ℕ
aimed t e = if e.target == t then 1 else 0

-- The weight of an event of another target.
abbrev pub other : String → (Event → ℕ) → Event → ℕ
other t f e = if e.target == t then 0 else f e

keep_other_targets_lem :
    (t : String) (es : List Event)
    → (length (keep_other_targets t es) + sum_by (aimed t) es ≡ length es)
      × (sum_by (aimed t) (keep_other_targets t es) ≡ 0)
      × ((f : Event → ℕ) → sum_by f (keep_other_targets t es) ≡ sum_by (other t f) es)
unfolding keep_other_targets
keep_other_targets_lem t [] = (refl, refl, λ f. refl)
keep_other_targets_lem t (e ∷ es) =
    let (counts, clean, kept) = keep_other_targets_lem t es in
    elim (Bool-cases (e.target == t)) [
      | inl h ↦ rw h (omega arith, clean, λ f. omega (arith, kept f))
      | inr h ↦ rw h (omega arith, rw h (omega (arith, clean)), λ f. omega (arith, kept f))
    ]

-- Clearing for a target returns the number of its events, leaves none of them, keeps every other
-- event and does not touch the clock.
pub clear_future_events_lem :
    (t : String) (l : EventLoop)
    → let (l', count) = clear_future_events (some t) l in
      (count ≡ sum_by (aimed t) l.event_queue)
      × (sum_by (aimed t) l'.event_queue ≡ 0)
      × ((f : Event → ℕ) → sum_by f l'.event_queue ≡ sum_by (other t f) l.event_queue)
      × (l'.current_time ≡ l.current_time)
unfolding clear_future_events
clear_future_events_lem t l =
    let (counts, clean, kept) = keep_other_targets_lem t l.event_queue in
    (omega arith, clean, kept, refl)

-- The filtered list need not be a heap: where the first event of a queue of three is the only one of
-- the target and the second is later than the third, the next pop after clearing returns the later
-- event, and the earlier one is left behind the clock.
pub clear_future_events-out_of_order :
    (t : String) (l : EventLoop) (a b c : Event)
    → l.event_queue ≡ a ∷ b ∷ c ∷ []
    → (a.target == t) ≡ true
    → (b.target == t) ≡ false
    → (c.target == t) ≡ false
    → c.timestamp < b.timestamp
    → let l' = (clear_future_events (some t) l).0 in
      (heappop event_rank no_event l'.event_queue ≡ some (b, c ∷ []))
      × (¬ Inv (enter_event b (c ∷ []) l'))
unfolding clear_future_events heappop siftup sink siftdown smaller_child enter_event
clear_future_events-out_of_order t l a b c q ha hb hc late =
    rw q (rw (ha, hb, hc) (refl, λ v. absurd (ground (arith, v.none_early))))
