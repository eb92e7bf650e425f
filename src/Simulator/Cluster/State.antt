-- ===== src/Simulator/Cluster/State.antt =====
-- cluster_manager.py: the state of the cluster manager, with trace.py's `TraceEvent`.
-- A request is an object that the manager shares with the engines: it stands in the store, and the
-- dictionaries hold its number. Quotients among the metrics are pairs of numerator and denominator.
use open_tela.Prelude.{
  ℕ, List, [], ◌∷◌, Option, none, some, Result, ok, raised, ◌>>=◌, String, string_eq, if◌then◌else◌,
}
use open_tela.Prelude.Dict.{Dict, put}
use open_tela.Prelude.Sets.{add, contains}
use mathlib.Core.List.{Memᴰ}
use mathlib.Core.Path.{◌≡◌}
use open_tela.Simulator.Request.{GenerationRequest, new_request}
use open_tela.Simulator.Memory.Planner.{MemoryPlanner, new_planner}
use open_tela.Simulator.Memory.Sizes.{ModelParams, ModelConfig, MemoryError}
use open_tela.Simulator.Config.{ParallelArgument}
use open_tela.Simulator.Engine.State.{ServingEngine, Store, new_engine}
use open_tela.Simulator.Scheduler.Choice.{PlacementDecision}

pub record NodeConfiguration : Type 0 where
  pub node_id : String
  pub model_id : String
  pub hardware : String
  pub max_batch_size : ℕ
  pub parallel_config : ParallelArgument

-- An entry of `hardware_params`.
pub record HardwareSpec : Type 0 where
  pub vmemory : ℕ
  pub bandwidth : ℕ
  pub fp16 : ℕ

-- What the constructor of an engine raises: KeyError, or what its planner raises.
pub data BuildError : Type 0 where
  unknown_hardware : BuildError
  planner_failed : MemoryError → BuildError

abbrev pub planned :
    Result MemoryError MemoryPlanner
    → (MemoryPlanner → ServingEngine)
    → Result BuildError ServingEngine
planned (raised x) f = raised (planner_failed x)
planned (ok p) f = ok (f p)

-- The `args` of the manager's trace events.
pub data TraceArgs : Type 0 where
  arrived : (request_id model : String) (input_length output_length : ℕ) → TraceArgs
  scheduled : (request_id target_engine placement_reason : String) → TraceArgs
  finished : (request_id : String) (total_time tokens_generated : ℕ) → TraceArgs
  rejected : (reason : String) → TraceArgs

-- `ts` is in microseconds, which the ticks are.
pub record TraceEvent : Type 0 where
  pub name : String
  pub cat : String
  pub ph : String
  pub pid : String
  pub tid : String
  pub ts : ℕ
  pub cname : String
  pub args : TraceArgs

pub record Metrics : Type 0 where
  pub total_requests : ℕ
  pub completed_requests : ℕ
  pub rejected_requests : ℕ
  pub cluster_utilization : ℕ × ℕ
  pub average_latency : ℕ × ℕ
  pub throughput : ℕ × ℕ
  pub scheduler_decisions : Dict String ℕ
  pub node_failures : ℕ
  pub node_recoveries : ℕ

-- `P` is the state of the scheduler.
pub record ClusterManager (P : Type 0) : Type 0 where
  pub serving_engines : Dict String ServingEngine
  pub online_nodes : List String
  pub offline_nodes : List String
  pub scheduler : P
  pub active_requests : Dict String ℕ
  pub completed_requests : List ℕ
  pub request_counter : ℕ
  pub metrics : Metrics
  pub start_time : ℕ
  pub current_time : ℕ
  pub last_metrics_update : ℕ
  pub trace_events : List TraceEvent
  pub store : Store
  pub next_object : ℕ  -- the number of the next request object

-- What the manager calls: its scheduler, which picks one of the engines that it is given; the GPU
-- times of the model analyzer, by engine; the order of a Python set; the colours, a hash.
pub record World (P : Type 0) : Type 0 where
  pub place_request : GenerationRequest → List ServingEngine → P → Option PlacementDecision × P
  pub prefill_time : String → ℕ → ℕ → ℕ
  pub decode_time : String → ℕ → ℕ → ℕ
  pub listing : List ℕ → List ℕ
  pub get_request_color : String → String
  pub among :
      (r : GenerationRequest) (es : List ServingEngine) (p : P) (d : PlacementDecision)
      → (place_request r es p).0 ≡ some d
      → Memᴰ d.target_engine es

abbrev pub no_metrics : Metrics
no_metrics = record {
  total_requests = 0;
  completed_requests = 0;
  rejected_requests = 0;
  cluster_utilization = (0, 1);
  average_latency = (0, 1);
  throughput = (0, 1);
  scheduler_decisions = [];
  node_failures = 0;
  node_recoveries = 0;
}

abbrev pub no_object : Store
no_object h = new_request "" "" 0 0 0

-- The attributes that the constructor sets, before `_initialize_cluster`.
unfoldable pub empty_manager : {P : Type 0} → P → ClusterManager P
empty_manager p = record {
  serving_engines = [];
  online_nodes = [];
  offline_nodes = [];
  scheduler = p;
  active_requests = [];
  completed_requests = [];
  request_counter = 0;
  metrics = no_metrics;
  start_time = 0;
  current_time = 0;
  last_metrics_update = 0;
  trace_events = [];
  store = no_object;
  next_object = 0;
}

-- What follows `hardware_params[hardware]`.
abbrev pub build_engine :
    (String → ModelParams)
    → NodeConfiguration
    → Option ModelConfig
    → Option HardwareSpec
    → Result BuildError ServingEngine
build_engine params_of n instance none = raised unknown_hardware
build_engine params_of n instance (some spec) =
    planned (new_planner (params_of n.model_id) instance n.parallel_config spec.vmemory 16 16 16)
      (λ p. new_engine n.node_id n.model_id n.hardware spec.bandwidth spec.fp16 p n.max_batch_size)

-- What the engines are built from: the models that `AutoConfig` loads, and the table of the hardware.
module _ {P : Type 0} (params_of : String → ModelParams)
    (hardware_params : String → Option HardwareSpec) where
  -- One round of the loop of `_initialize_cluster`, with `model_instance=None`.
  unfoldable pub add_node :
      NodeConfiguration → ClusterManager P → Result BuildError (ClusterManager P)
  add_node n m = build_engine params_of n none (hardware_params n.hardware) >>= λ engine.
      ok (record m {
        serving_engines = put n.node_id engine m.serving_engines;
        online_nodes = add n.node_id m.online_nodes;
      })

  unfoldable pub initialize_cluster :
      List NodeConfiguration → ClusterManager P → Result BuildError (ClusterManager P)
  initialize_cluster [] m = ok m
  initialize_cluster (n ∷ ns) m = add_node n m >>= initialize_cluster ns

-- `available_engines` of `_handle_placement_decision`
unfoldable pub available_engines : List String → Dict String ServingEngine → List ServingEngine
available_engines online [] = []
available_engines online ((n, e) ∷ es) =
    let rest = available_engines online es in if contains n online then e ∷ rest else rest
