-- ===== src/Simulator/Events/Stable.antt =====
-- events.py: `step` and `run` over handlers that keep an invariant of their state.
use open_tela.Prelude.{
  ℕ, zero, suc, ◌+◌, ◌≡◌, sym, true, false, Bool, Bool-cases, Option-cases, Option, some, Result,
  ok, arith, >>=-eq-ok, inl, inr, ◌∙◌,
}
use open_tela.Simulator.Heapq.{heappop}
use open_tela.Simulator.Events.{
  Event, EventType, event_rank, no_event, EventLoop, LoopError, enter_event, Handlers, handle, step,
  run_loop, run, halts, finish,
}
use open_tela.Simulator.Events.Running.{after_loop-eq, after_step_cases, step_empty, step_event}

module _ {S : Type 0} (handlers : Handlers S) (J : S → Type 0)
    (stable : (t : EventType) (h : Event → S × EventLoop → Result LoopError (S × EventLoop))
        (e : Event) (s : S) (l : EventLoop) (after : S × EventLoop)
      → handlers t ≡ some h
      → J s
      → h e (s, l) ≡ ok after
      → J after.0) where
  handle_stable :
      (e : Event) (s : S) (l : EventLoop) (after : S × EventLoop)
      → J s
      → handle handlers e (s, l) ≡ ok after
      → J after.0
  unfolding handle
  handle_stable e s l after j h = elim (Option-cases (handlers e.event_type)) [
    | inl n ↦ let same : after ≡ (s, l) = ground (arith) in rw same j
    | inr (f, found) ↦ stable e.event_type f e s l after found j (ground arith)
  ]

  step_stable :
      (s : S) (l : EventLoop) (b : Bool) (after : S × EventLoop)
      → J s
      → step handlers (s, l) ≡ ok (b, after)
      → J after.0
  step_stable s l b after j h = elim (Option-cases (heappop event_rank no_event l.event_queue)) [
    | inl n ↦ let same : after ≡ (s, l) = cc (step_empty handlers s l n) in rw same j
    | inr ((e, rest), found) ↦
        let (mid, handled, done) =
          >>=-eq-ok (handle handlers e (s, enter_event e rest l)) (λ after. ok (true, after))
            {b = (b, after)} (sym (step_event handlers s l e rest found) ∙ h) in
        let kept = handle_stable e s (enter_event e rest l) mid j handled in
        let same : mid ≡ after = cc in rw same at (let r : J mid.0 = kept in r)
  ]

  run_loop_stable :
      (fuel : ℕ) (max_time max_events : Option ℕ) (n : ℕ) (s : S) (l : EventLoop)
      (after : S × EventLoop)
      → J s
      → run_loop handlers fuel max_time max_events n (s, l) ≡ some (ok after)
      → J after.0
  unfolding run_loop
  run_loop_stable zero max_time max_events n s l after j h = cc
  run_loop_stable (suc fuel) max_time max_events n s l after j h =
      let again = run_loop handlers fuel max_time max_events (n + 1) in
      elim (Bool-cases (halts max_time max_events n l)) [
        | inl stops ↦ let same : after ≡ (s, l) = ground arith in rw same j
        | inr more ↦ elim (after_step_cases (step handlers (s, l)) again after (rw more at h)) [
          | inl ended ↦ step_stable s l false after j ended
          | inr (mid, stepped, rest) ↦
              run_loop_stable fuel max_time max_events (n + 1) mid.0 mid.1 after
                (step_stable s l true mid j stepped) rest
        ]
      ]

  -- What every handler keeps, a run keeps.
  pub run_stable :
      (fuel : ℕ) (max_time max_events : Option ℕ) (s : S) (l : EventLoop) (after : S × EventLoop)
      → J s
      → run handlers fuel max_time max_events (s, l) ≡ some (ok after)
      → J after.0
  unfolding run finish
  run_stable fuel max_time max_events s l after j h =
      let start = record l { running = true } in
      let (mid, looped, ended) =
        after_loop-eq (run_loop handlers fuel max_time max_events 0 (s, start)) after h in
      rw ended (run_loop_stable fuel max_time max_events 0 s start mid j looped)
