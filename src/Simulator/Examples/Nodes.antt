-- ===== src/Simulator/Examples/Nodes.antt =====
-- cluster_manager.py: a small cluster for the tests.
use open_tela.Prelude.{
  ◌==◌, nat_eq, if◌then◌else◌, List, [], ◌∷◌, Option, none, some, String, string_eq, Result, ok,
  raised,
}
use open_tela.Simulator.Config.{absent}
use open_tela.Simulator.Engine.State.{ServingEngine, new_engine}
use open_tela.Simulator.Events.{LoopError}
use open_tela.Simulator.Scheduler.Choice.{PlacementStatistics, no_decisions}
use open_tela.Simulator.Scheduler.Algorithms.{place_roofline}
use open_tela.Simulator.Scheduler.Selection.{place_roofline-Leads}
use open_tela.Simulator.Cluster.State.{ClusterManager, World, NodeConfiguration, empty_manager}
use open_tela.Simulator.Cluster.Simulation.{Workload}
use open_tela.Simulator.Examples.Samples.{planner}

-- The roofline scheduler, and steps of one tick.
abbrev pub world : World PlacementStatistics
world = record {
  place_request = place_roofline;
  prefill_time = λ n a b. 1;
  decode_time = λ n a b. 1;
  listing = λ hs. hs;
  get_request_color = λ id. "good";
  among = λ r es p d h. (place_roofline-Leads r es p d h).0;
}

abbrev pub node : String → NodeConfiguration
node n = record {
  node_id = n;
  model_id = "m";
  hardware = "h";
  max_batch_size = 4;
  parallel_config = absent;
}

abbrev pub nodes : List NodeConfiguration
nodes = node "n1" ∷ node "n2" ∷ []

-- Two requests, of 4 and 2 tokens.
abbrev pub workload : Workload
workload = record {
  generate_arrivals = λ start duration. 1 ∷ 8 ∷ [];
  request_name = λ n. if n == 1 then "req_1" else "req_2";
  draws = λ n. (4, 2);
}

abbrev pub engine_of : NodeConfiguration → ServingEngine
engine_of n = new_engine n.node_id n.model_id n.hardware 1 1 planner n.max_batch_size

-- Two nodes that are online.
abbrev pub manager : ClusterManager PlacementStatistics
manager =
    let empty = empty_manager no_decisions in
    record empty {
      serving_engines = ("n1", engine_of (node "n1")) ∷ ("n2", engine_of (node "n2")) ∷ [];
      online_nodes = "n1" ∷ "n2" ∷ [];
    }

abbrev pub value_or : {A : Type 0} → A → Option (Result LoopError A) → A
value_or a none = a
value_or a (some (raised x)) = a
value_or a (some (ok b)) = b
