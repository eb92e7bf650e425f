-- ===== src/Simulator/Cluster/Outcome.antt =====
-- cluster_manager.py: `run_simulation` as a whole.
use open_tela.Prelude.{
  ℕ, ◌+◌, ◌/◌, ◌≤◌, ◌≡◌, refl, sym, Bool, false, Bool-cases, List, [], ◌∷◌, some, String, Result,
  ok, >>=-eq-ok, ok-injective, inl, inr, arith,
}
use mathlib.Core.Path.{subst}
use open_tela.Simulator.Events.{EventLoop, LoopError, run}
use open_tela.Simulator.Events.Order.{Inv}
use open_tela.Simulator.Events.Running.{run-Inv, run_total}
use open_tela.Simulator.Cluster.State.{ClusterManager, World, NodeConfiguration}
use open_tela.Simulator.Cluster.Dispatch.{is_filled}
use open_tela.Simulator.Cluster.Handlers.{handlers}
use open_tela.Simulator.Cluster.Growth.{Grows, Grows-refl, Grows-trans}
use open_tela.Simulator.Cluster.Queueing.{handlers-Keeps}
use open_tela.Simulator.Cluster.Ledger.{Census, ledger}
use open_tela.Simulator.Cluster.Refinement.{run-Census}
use open_tela.Simulator.Cluster.Simulation.{
  schedule_arrivals, balance_interval, schedule_balancing, balancing_fuel, extended_time,
  max_events, Workload, schedule_failures, schedule_request_arrivals, run_simulation,
}
use open_tela.Simulator.Cluster.Setup.{
  and_then_total, and_then-eq, some-injective, schedule_balancing_total, balancing_fuel_enough,
  schedule_balancing-Grows, schedule_arrivals-Grows, schedule_failures-Grows, update_metrics-ledger,
  update_metrics-time,
}

-- What a simulation that began with the loop `l` leaves.
abbrev pub Outcome : {P : Type 0} → EventLoop → (String → ℕ) → ClusterManager P × EventLoop → Type 0
Outcome l counts after =
    Inv after.1
    × Census counts (ledger after.0)
    × (l.current_time ≤ after.1.current_time)
    × (after.1.running ≡ false)
    × (after.0.current_time ≡ after.1.current_time)

module _ {P : Type 0} (k : Workload) where
  schedule_request_arrivals-Grows :
      (nodes : List NodeConfiguration) (duration : ℕ) (m : ClusterManager P) (l : EventLoop)
      (after : ClusterManager P × EventLoop)
      → schedule_request_arrivals k nodes duration (m, l) ≡ ok after
      → Grows l after.1 × (ledger m ≡ ledger after.0)
  unfolding schedule_request_arrivals
  schedule_request_arrivals-Grows [] duration m l after h =
      elim (Bool-cases (is_filled (k.generate_arrivals m.start_time duration))) [
        | inl t ↦ cc (rw t at h)
        | inr f ↦
            subst (λ (y : ClusterManager P × EventLoop). Grows l y.1 × (ledger m ≡ ledger y.0))
              (ok-injective (rw f at h)) (Grows-refl l, refl)
      ]
  schedule_request_arrivals-Grows (n ∷ ns) duration m l after h =
      let (x, arranged, rest) =
        >>=-eq-ok
          (schedule_arrivals k.request_name n.model_id k.draws
            (k.generate_arrivals m.start_time duration) (m.request_counter, 0, l))
          _ h in
      subst (λ (y : ClusterManager P × EventLoop). Grows l y.1 × (ledger m ≡ ledger y.0))
        (ok-injective rest) (schedule_arrivals-Grows _ _ _ _ _ _ l x arranged, refl)

  -- A simulation with a duration ends, with a result or by an exception: its loop over the balancing
  -- events ends, and the limit of events ends the run.
  pub run_simulation_total :
      (w : World P) (nodes : List NodeConfiguration) (duration : ℕ) (enable_failures : Bool)
      (m : ClusterManager P) (l : EventLoop)
      → (r : Result LoopError (ClusterManager P × EventLoop)) × (run_simulation k w nodes duration
            enable_failures
            (m, l)
          ≡ some r)
  unfolding run_simulation
  run_simulation_total w nodes duration enable_failures m l =
      and_then_total
        (some (
          schedule_request_arrivals k nodes duration
            (record m { start_time = 0; current_time = 0 }, l)))
        _ (_, refl)
        (λ arranged.
          and_then_total
            (schedule_balancing (balancing_fuel duration) balance_interval duration arranged.1) _
            (schedule_balancing_total (duration / balance_interval) balance_interval duration
              arranged.1 (balancing_fuel_enough duration))
            (λ l₂.
              and_then_total (some (schedule_failures enable_failures nodes duration l₂)) _
                (_, refl)
                (λ l₃.
                  and_then_total
                    (run (handlers w) (max_events + 1) (some (extended_time duration))
                      (some max_events) (arranged.0, l₃))
                    _
                    (run_total (handlers w) max_events (some (extended_time duration)) arranged.0 l₃
                      (omega arith))
                    (λ done. (_, refl)))))

  -- A simulation that begins on an event loop with its invariant and a manager with its counters and
  -- node sets in order, and that returns, leaves both so. The loop is stopped and its queue a heap
  -- without events of the past, the time has not gone back, and the manager's clock is the loop's. The
  -- completed requests are as many as the metric says; with the active and the rejected ones they are
  -- no more than have arrived. The failures are the recoveries and the offline nodes together, and
  -- every node that `counts` counts is either online or offline, once.
  pub run_simulation_lem :
      (w : World P) (nodes : List NodeConfiguration) (duration : ℕ) (enable_failures : Bool)
      (m : ClusterManager P) (l : EventLoop) (counts : String → ℕ)
      (after : ClusterManager P × EventLoop)
      → Inv l
      → Census counts (ledger m)
      → run_simulation k w nodes duration enable_failures (m, l) ≡ some (ok after)
      → Outcome l counts after
  unfolding run_simulation
  run_simulation_lem w nodes duration enable_failures m l counts after v c h =
      let start = record m { start_time = 0; current_time = 0 } in
      let (arranged, r₁, h₁) =
        and_then-eq (some (schedule_request_arrivals k nodes duration (start, l))) _ after h in
      let (l₂, r₂, h₂) =
        and_then-eq
          (schedule_balancing (balancing_fuel duration) balance_interval duration arranged.1) _
          after h₁ in
      let (l₃, r₃, h₃) =
        and_then-eq (some (schedule_failures enable_failures nodes duration l₂)) _ after h₂ in
      let (done, r₄, h₄) =
        and_then-eq
          (run (handlers w) (max_events + 1) (some (extended_time duration)) (some max_events)
            (arranged.0, l₃))
          _ after h₃ in
      let (grown₁, same) =
        schedule_request_arrivals-Grows nodes duration start l arranged (some-injective r₁) in
      let grown₂ = schedule_balancing-Grows _ balance_interval duration arranged.1 l₂ r₂ in
      let grown₃ =
        schedule_failures-Grows enable_failures nodes duration l₂ l₃ (some-injective r₃) in
      let (v₃, still, _) = Grows-trans grown₁ (Grows-trans grown₂ grown₃) v in
      let (v₄, later, stopped, _) =
        run-Inv (handlers w) (handlers-Keeps w) _ _ _ arranged.0 l₃ done v₃ r₄ in
      let c₄ = run-Census w counts _ _ _ arranged.0 l₃ done (subst (Census counts) same c) r₄ in
      let now = (done.1).current_time in
      let counted =
        subst (Census counts)
          (sym (update_metrics-ledger now (record (done.0) { current_time = now }))) c₄ in
      subst (Outcome l counts) (ok-injective (some-injective h₄)) (
        v₄,
        counted,
        omega (arith, still),
        stopped,
        update_metrics-time now (record (done.0) { current_time = now }),
      )
