-- ===== src/Simulator/Cluster/Refinement.antt =====
-- cluster_manager.py: the handlers as steps of the abstract machine.
use open_tela.Prelude.{ℕ, ◌≡◌, Option, some, String, string_eq, ok}
use open_tela.Simulator.Events.{Event, EventType, EventLoop, run}
use open_tela.Simulator.Events.Stable.{run_stable}
use open_tela.Simulator.Cluster.State.{ClusterManager, World}
use open_tela.Simulator.Cluster.Dispatch.{Handler}
use open_tela.Simulator.Cluster.Requests.{handle_request_arrival}
use open_tela.Simulator.Cluster.Nodes.{handle_load_balance, rebalance_requests}
use open_tela.Simulator.Cluster.Handlers.{every_handler, handlers}
use open_tela.Simulator.Cluster.Ledger.{ledger, Census, Accounted}
use open_tela.Simulator.Cluster.Machine.{
  LedgerStep, rests, Reach, here, next, Fresh, Reach-Census, LedgerStep-Accounted,
}
use open_tela.Simulator.Cluster.Moves.{
  Moves, moved_to, arrival_of-Moves, handle_placement_decision-Moves, handle_request_complete-Moves,
  handle_node_online-Moves, handle_node_offline-Moves, handle_batch_form-Moves,
}

module _ {P : Type 0} (w : World P) where
  abbrev MovesBy : Handler P → Type 0
  MovesBy f = (v : Event) → Moves v.contents (f v)

  -- A handler that returns takes one step of the abstract machine: nothing changes, a request
  -- arrives, an active request is rejected or completed, an online node fails or an offline one
  -- recovers. A request arrives only by an event with the dictionary of an arrival.
  pub handlers-LedgerStep :
      (t : EventType) (f : Handler P) (v : Event) (m : ClusterManager P) (l : EventLoop)
      (after : ClusterManager P × EventLoop)
      → handlers w t ≡ some f
      → f v (m, l) ≡ ok after
      → LedgerStep v.contents (ledger m) (ledger after.0)
  handlers-LedgerStep t f v m l after found =
      every_handler w MovesBy
        (λ v. unfold handle_request_arrival in arrival_of-Moves w v.timestamp v.contents)
        (handle_placement_decision-Moves w) (handle_node_online-Moves w)
        (handle_node_offline-Moves w) (handle_request_complete-Moves w) (handle_batch_form-Moves w)
        (λ v m l after r.
          unfold handle_load_balance rebalance_requests in
          moved_to v.contents (ledger m) m l after r (rests (ledger m)))
        (λ v m l after r. moved_to v.contents (ledger m) m l after r (rests (ledger m))) t f found v
        m l after

  -- A handler keeps the balance of arrived against active, completed and rejected requests, where an
  -- arrival has a name that no active request has.
  pub handlers-Accounted :
      (t : EventType) (f : Handler P) (v : Event) (m : ClusterManager P) (l : EventLoop)
      (after : ClusterManager P × EventLoop)
      → handlers w t ≡ some f
      → f v (m, l) ≡ ok after
      → Fresh v.contents (ledger m)
      → Accounted (ledger m)
      → Accounted (ledger after.0)
  handlers-Accounted t f v m l after found ran =
      LedgerStep-Accounted (handlers-LedgerStep t f v m l after found ran)

  pub run-Reach :
      (fuel : ℕ) (max_time max_events : Option ℕ) (m : ClusterManager P) (l : EventLoop)
      (after : ClusterManager P × EventLoop)
      → run (handlers w) fuel max_time max_events (m, l) ≡ some (ok after)
      → Reach (ledger m) (ledger after.0)
  run-Reach fuel max_time max_events m l after =
      run_stable (handlers w) (λ k. Reach (ledger m) (ledger k))
        (λ t f v k l after found so_far ran.
          next so_far (handlers-LedgerStep t f v k l after found ran))
        fuel max_time max_events m l after here

  pub run-Census :
      (nodes : String → ℕ) (fuel : ℕ) (max_time max_events : Option ℕ) (m : ClusterManager P)
      (l : EventLoop) (after : ClusterManager P × EventLoop)
      → Census nodes (ledger m)
      → run (handlers w) fuel max_time max_events (m, l) ≡ some (ok after)
      → Census nodes (ledger after.0)
  run-Census nodes fuel max_time max_events m l after c ran =
      Reach-Census nodes (run-Reach fuel max_time max_events m l after ran) c
