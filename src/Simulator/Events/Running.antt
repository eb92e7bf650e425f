-- ===== src/Simulator/Events/Running.antt =====
-- events.py: `step` and `run` over handlers that keep the loop's invariant.
use open_tela.Prelude.{
  ℕ, zero, suc, ◌+◌, ◌≤◌, ◌<◌, ◌≡◌, refl, sym, Bool, true, false, Bool-cases, Option-cases, List,
  Option, none, some, Result, ok, raised, arith, ◌>>=◌, >>=-eq-ok, inl, inr, ◌⊎◌, ◌∙◌,
}
use mathlib.Core.Path.{subst}
use mathlib.Core.Logic.{◌≢◌}
use open_tela.Simulator.Heapq.{heappop}
use open_tela.Simulator.Events.{
  Event, EventType, event_rank, no_event, EventLoop, LoopError, enter_event, Handlers, handle, step,
  run_loop, run, halts, after_step, after_loop, after_loop, finish,
}
use open_tela.Simulator.Events.Order.{Inv, enter_event_lem}

module _ {S : Type 0} where
  -- Every handler that returns keeps the invariant and does not turn the clock back.
  abbrev pub Keeps : Handlers S → Type 0
  Keeps handlers =
      (t : EventType) (h : Event → S × EventLoop → Result LoopError (S × EventLoop)) (e : Event)
      (s : S) (l : EventLoop) (after : S × EventLoop)
      → handlers t ≡ some h
      → Inv l
      → h e (s, l) ≡ ok after
      → Inv after.1 × (l.current_time ≤ after.1.current_time)

module _ {S : Type 0} where
  pub after_loop-eq :
      (o : Option (Result LoopError (S × EventLoop))) (after : S × EventLoop)
      → after_loop o ≡ some (ok after)
      → (mid : S × EventLoop) × (o ≡ some (ok mid)) × (after ≡ finish mid)
  unfolding finish
  after_loop-eq none after h = cc
  after_loop-eq (some (raised x)) after h = cc
  after_loop-eq (some (ok mid)) after h = (mid, refl, cc)

  after_loop_total :
      (r : Result LoopError (S × EventLoop)) (o : Option (Result LoopError (S × EventLoop)))
      → o ≡ some r
      → (r' : Result LoopError (S × EventLoop)) × (after_loop o ≡ some r')
  unfolding finish
  after_loop_total (raised x) o e = rw e (raised x, refl)
  after_loop_total (ok after) o e = rw e (ok (finish after), refl)

  pub after_step_cases :
      (r : Result LoopError (Bool × (S × EventLoop)))
      (again : S × EventLoop → Option (Result LoopError (S × EventLoop))) (after : S × EventLoop)
      → after_step r again ≡ some (ok after)
      → (r ≡ ok (false, after))
        ⊎ ((mid : S × EventLoop) × (r ≡ ok (true, mid)) × (again mid ≡ some (ok after)))
  after_step_cases (raised x) again after h = cc
  after_step_cases (ok (false, mid)) again after h = inl cc
  after_step_cases (ok (true, mid)) again after h = inr (mid, refl, h)

module _ {S : Type 0} (handlers : Handlers S) where
  pub step_empty :
      (s : S) (l : EventLoop)
      → heappop event_rank no_event l.event_queue ≡ none
      → step handlers (s, l) ≡ ok (false, (s, l))
  unfolding step
  step_empty s l h = rw (h, step)

  pub step_event :
      (s : S) (l : EventLoop) (e : Event) (rest : List Event)
      → heappop event_rank no_event l.event_queue ≡ some (e, rest)
      → step handlers (s, l)
        ≡ (handle handlers e (s, enter_event e rest l) >>= λ after. ok (true, after))
  unfolding step
  step_event s l e rest h = rw (h, step)

module _ {S : Type 0} (handlers : Handlers S) (keeps : Keeps handlers) where
  handle-Inv :
      (e : Event) (s : S) (l : EventLoop) (after : S × EventLoop)
      → Inv l
      → handle handlers e (s, l) ≡ ok after
      → Inv after.1 × (l.current_time ≤ after.1.current_time)
  unfolding handle
  handle-Inv e s l after v h = elim (Option-cases (handlers e.event_type)) [
    | inl n ↦ let same : after ≡ (s, l) = ground (arith) in rw same (v, omega arith)
    | inr (f, found) ↦ keeps e.event_type f e s l after found v (ground arith)
  ]

  -- A step that returns keeps the invariant and does not turn the clock back.
  pub step-Inv :
      (s : S) (l : EventLoop) (b : Bool) (after : S × EventLoop)
      → Inv l
      → step handlers (s, l) ≡ ok (b, after)
      → Inv after.1 × (l.current_time ≤ after.1.current_time)
  step-Inv s l b after v h = elim (Option-cases (heappop event_rank no_event l.event_queue)) [
    | inl n ↦ let same : after ≡ (s, l) = cc (step_empty handlers s l n) in rw same (v, omega arith)
    | inr ((e, rest), found) ↦
        let (v', later, _, _) = enter_event_lem l e rest v found in
        let (mid, handled, done) =
          >>=-eq-ok (handle handlers e (s, enter_event e rest l)) (λ after. ok (true, after))
            {b = (b, after)} (sym (step_event handlers s l e rest found) ∙ h) in
        let (kept, forward) = handle-Inv e s (enter_event e rest l) mid v' handled in
        let same : mid ≡ after = cc in
        let entered : (enter_event e rest l).current_time ≡ e.timestamp =
          unfold enter_event in refl in
        rw same at
          (let r : Inv mid.1 × (l.current_time ≤ mid.1.current_time) = (kept, omega arith) in r)
  ]

  run_loop-Inv :
      (fuel : ℕ) (max_time max_events : Option ℕ) (n : ℕ) (s : S) (l : EventLoop)
      (after : S × EventLoop)
      → Inv l
      → run_loop handlers fuel max_time max_events n (s, l) ≡ some (ok after)
      → Inv after.1 × (l.current_time ≤ after.1.current_time)
  unfolding run_loop
  run_loop-Inv zero max_time max_events n s l after v h = cc
  run_loop-Inv (suc fuel) max_time max_events n s l after v h =
      let again = run_loop handlers fuel max_time max_events (n + 1) in
      elim (Bool-cases (halts max_time max_events n l)) [
        | inl stops ↦ let same : after ≡ (s, l) = ground arith in rw same (v, omega arith)
        | inr more ↦ elim (after_step_cases (step handlers (s, l)) again after (rw more at h)) [
          | inl ended ↦ step-Inv s l false after v ended
          | inr (mid, stepped, rest) ↦
              let (v', first) = step-Inv s l true mid v stepped in
              let (v'', later) =
                run_loop-Inv fuel max_time max_events (n + 1) mid.0 mid.1 after v' rest in
              (v'', omega arith)
        ]
      ]

  -- If every handler that returns keeps the loop's invariant and does not turn the clock back,
  -- then a run that starts with the invariant and returns leaves the loop stopped, with the
  -- invariant kept, the clock not turned back and the total time set to the clock. The invariant
  -- is that the queue is a heap without events of the past.
  pub run-Inv :
      (fuel : ℕ) (max_time max_events : Option ℕ) (s : S) (l : EventLoop) (after : S × EventLoop)
      → Inv l
      → run handlers fuel max_time max_events (s, l) ≡ some (ok after)
      → Inv after.1
        × (l.current_time ≤ after.1.current_time)
        × (after.1.running ≡ false)
        × (after.1.statistics.total_simulation_time ≡ after.1.current_time)
  unfolding run finish
  run-Inv fuel max_time max_events s l after v h =
      let start = record l { running = true } in
      let (mid, looped, ended) =
        after_loop-eq (run_loop handlers fuel max_time max_events 0 (s, start)) after h in
      let v' : Inv start = record { heap = v.heap; none_early = v.none_early } in
      let (v'', later) = run_loop-Inv fuel max_time max_events 0 s start mid v' looped in
      rw ended (record { heap = v''.heap; none_early = v''.none_early }, later, refl, refl)

module _ {S : Type 0} (handlers : Handlers S) where
  after_step_total :
      (x : Result LoopError (Bool × (S × EventLoop)))
      (again : S × EventLoop → Option (Result LoopError (S × EventLoop)))
      → ((mid : S × EventLoop) → (r : Result LoopError (S × EventLoop)) × (again mid ≡ some r))
      → (r : Result LoopError (S × EventLoop)) × (after_step x again ≡ some r)
  after_step_total (raised x) again h = (raised x, refl)
  after_step_total (ok (false, mid)) again h = (ok mid, refl)
  after_step_total (ok (true, mid)) again h = h mid

  halts_limit :
      (max_time : Option ℕ) (m : ℕ) (l : EventLoop) → 0 < m → halts max_time (some m) m l ≡ true
  unfolding halts
  halts_limit max_time m l pos = ground arith

  run_loop_total :
      (fuel m n : ℕ) (max_time : Option ℕ) (s : S) (l : EventLoop)
      → 0 < m
      → n ≤ m
      → m < n + fuel
      → (r : Result LoopError (S × EventLoop)) × (run_loop handlers fuel max_time (some m) n (s, l)
          ≡ some r)
  unfolding run_loop
  run_loop_total zero m n max_time s l pos le enough = absurd (omega arith)
  run_loop_total (suc fuel) m n max_time s l pos le enough =
      elim (Bool-cases (halts max_time (some m) n l)) [
        | inl stops ↦ (ok (s, l), rw stops)
        | inr more ↦
            let low : n ≢ m = λ e. cc (
              subst (λ t. halts max_time (some m) t l ≡ true) (sym e)
                (halts_limit max_time m l pos)) in
            rw more (
              after_step_total (step handlers (s, l))
                (run_loop handlers fuel max_time (some m) (n + 1))
                (λ mid.
                  run_loop_total fuel m (n + 1) max_time mid.0 mid.1 pos (omega arith)
                    (omega arith)))
      ]

  -- With a limit of `m` events, m not 0, m + 1 rounds of fuel suffice: the run ends, with a result or
  -- with an exception of a handler.
  pub run_total :
      (m : ℕ) (max_time : Option ℕ) (s : S) (l : EventLoop)
      → 0 < m
      → (r : Result LoopError (S × EventLoop)) × (run handlers (m + 1) max_time (some m) (s, l)
          ≡ some r)
  unfolding run finish
  run_total m max_time s l pos =
      let (r, e) =
        run_loop_total (m + 1) m 0 max_time s (record l { running = true }) pos (omega arith)
          (omega arith) in
      after_loop_total r
        (run_loop handlers (m + 1) max_time (some m) 0 (s, record l { running = true })) e
