-- ===== src/Simulator/Cluster/Nodes.antt =====
-- cluster_manager.py: the handlers of nodes that come and go.
use open_tela.Prelude.{
  ◌+◌, [], Option, none, some, String, ◌==◌, string_eq, nat_eq, Result, ok, raised, ◌>>=◌,
  if◌then◌else◌,
}
use open_tela.Prelude.Dict.{get, put, get_or}
use open_tela.Prelude.Sets.{add, remove, contains}
use open_tela.Simulator.Events.{EventLoop, LoopError, handler_failed}
use open_tela.Simulator.Cluster.State.{ClusterManager}
use open_tela.Simulator.Cluster.Dispatch.{Handler, node_id_of, requeue}

module _ {P : Type 0} where
  unfoldable pub node_online : String → ClusterManager P → ClusterManager P
  node_online n m =
      let metrics = m.metrics in
      if contains n m.offline_nodes
      then record m {
        offline_nodes = get_or m.offline_nodes (remove n m.offline_nodes);
        online_nodes = add n m.online_nodes;
        metrics = record metrics { node_recoveries = metrics.node_recoveries + 1 };
      }
      else m

  unfoldable pub handle_node_online : Handler P
  handle_node_online v (m, l) = elim (node_id_of v.contents) [
    | none ↦ raised handler_failed
    | some n ↦ ok (node_online n m, l)
  ]

  -- The waiting requests of an engine go back to the placement.
  unfoldable pub clear_request_queue :
      String → ClusterManager P × EventLoop → Result LoopError (ClusterManager P × EventLoop)
  clear_request_queue n (m, l) = elim (get n m.serving_engines) [
    | none ↦ ok (m, l)
    | some e ↦ requeue m.store e.request_queue l >>= λ l'. ok (
      record m { serving_engines = put n (record e { request_queue = [] }) m.serving_engines },
      l',
    )
  ]

  -- `_rebalance_requests`: without a node, or with an empty name, it does nothing.
  unfoldable pub rebalance_requests :
      Option String → ClusterManager P × EventLoop → Result LoopError (ClusterManager P × EventLoop)
  rebalance_requests none s = ok s
  rebalance_requests (some n) s = if n == "" then ok s else clear_request_queue n s

  unfoldable pub mark_offline : String → ClusterManager P → ClusterManager P
  mark_offline n m =
      let metrics = m.metrics in
      record m {
        online_nodes = get_or m.online_nodes (remove n m.online_nodes);
        offline_nodes = add n m.offline_nodes;
        metrics = record metrics { node_failures = metrics.node_failures + 1 };
      }

  unfoldable pub handle_node_offline : Handler P
  handle_node_offline v (m, l) = elim (node_id_of v.contents) [
    | none ↦ raised handler_failed
    | some n ↦
        if contains n m.online_nodes
        then rebalance_requests (some n) (mark_offline n m, l)
        else ok (m, l)
  ]

  unfoldable pub handle_load_balance : Handler P
  handle_load_balance v s = rebalance_requests none s
