-- ===== src/Simulator/Cluster/Growth.antt =====
-- cluster_manager.py: what scheduling does to the event loop.
use open_tela.Prelude.{
  ℕ, ◌≤◌, ◌≡◌, refl, sym, ◌∙◌, Bool-cases, List, [], ◌∷◌, String, string_eq, ok, >>=-eq-ok, inl,
  inr, arith, sum_by, ok-injective,
}
use mathlib.Core.Path.{subst}
use open_tela.Simulator.Events.{Event, EventLoop, schedule_event}
use open_tela.Simulator.Events.Order.{Inv, schedule_event_lem}
use open_tela.Simulator.Engine.State.{ServingEngine, Store}
use open_tela.Simulator.Cluster.Dispatch.{
  handle_engine_event, handle_engine_events, has_pending_work, next_step_time, not_before,
  placement_event, requeue, schedule_engine_events, schedule_next_step, step_event,
}

-- From `l` the loop goes on to `l'` by new events alone: the invariant is kept, no event is lost, and
-- the clock stands still.
abbrev pub Grows : EventLoop → EventLoop → Type 0
Grows l l' =
    Inv l
    → Inv l'
      × (l'.current_time ≡ l.current_time)
      × ((f : Event → ℕ) → sum_by f l.event_queue ≤ sum_by f l'.event_queue)

pub Grows-refl : (l : EventLoop) → Grows l l
Grows-refl l v = (v, refl, λ f. omega arith)

pub Grows-trans : {a b c : EventLoop} → Grows a b → Grows b c → Grows a c
Grows-trans first next v =
    let (v', t, le) = first v in
    let (v'', t', le') = next v' in (v'', t' ∙ t, λ f. omega (arith, le f, le' f))

pub schedule_event-Grows : (e : Event) (l l' : EventLoop) → schedule_event e l ≡ ok l' → Grows l l'
schedule_event-Grows e l l' h v = elim (schedule_event_lem e l v) [
  | inl (past, r) ↦ cc
  | inr (q, now, r, v', t, sums) ↦
      let same : q ≡ l' = ok-injective (sym r ∙ h) in
      subst
        (λ (y : EventLoop).
          Inv y
          × (y.current_time ≡ l.current_time)
          × ((f : Event → ℕ) → sum_by f l.event_queue ≤ sum_by f y.event_queue))
        same (v', t, λ f. omega (arith, sums f))
]

pub handle_engine_events-Grows :
    (vs : List Event) (l l' : EventLoop) → handle_engine_events vs l ≡ ok l' → Grows l l'
unfolding handle_engine_events handle_engine_event
handle_engine_events-Grows [] l l' h = rw (sym (ok-injective h)) (Grows-refl l)
handle_engine_events-Grows (v ∷ vs) l l' h =
    let (mid, first, rest) =
      >>=-eq-ok (handle_engine_event v l) (λ l'. handle_engine_events vs l') h in
    Grows-trans (schedule_event-Grows _ l mid first) (handle_engine_events-Grows vs mid l' rest)

pub schedule_engine_events-Grows :
    (vs : List Event) (l l' : EventLoop) → schedule_engine_events vs l ≡ ok l' → Grows l l'
unfolding schedule_engine_events
schedule_engine_events-Grows [] l l' h = rw (sym (ok-injective h)) (Grows-refl l)
schedule_engine_events-Grows (v ∷ vs) l l' h =
    let (mid, first, rest) =
      >>=-eq-ok (schedule_event (not_before l.current_time v) l)
        (λ l'. schedule_engine_events vs l') h in
    Grows-trans (schedule_event-Grows _ l mid first) (schedule_engine_events-Grows vs mid l' rest)

pub requeue-Grows :
    (s : Store) (hs : List ℕ) (l l' : EventLoop) → requeue s hs l ≡ ok l' → Grows l l'
unfolding requeue
requeue-Grows s [] l l' h = rw (sym (ok-injective h)) (Grows-refl l)
requeue-Grows s (r ∷ hs) l l' h =
    let (mid, first, rest) =
      >>=-eq-ok (schedule_event (placement_event (s r).req_id l.current_time) l)
        (λ l'. requeue s hs l') h in
    Grows-trans (schedule_event-Grows _ l mid first) (requeue-Grows s hs mid l' rest)

pub schedule_next_step-Grows :
    (n : String) (e : ServingEngine) (l l' : EventLoop)
    → schedule_next_step n e l ≡ ok l'
    → Grows l l'
unfolding schedule_next_step
schedule_next_step-Grows n e l l' h = elim (Bool-cases (has_pending_work e)) [
  | inl t ↦ schedule_event-Grows (step_event n (next_step_time e l.current_time)) l l' (rw t at h)
  | inr f ↦ let same : l ≡ l' = ok-injective (rw f at h) in rw (sym same) (Grows-refl l)
]
