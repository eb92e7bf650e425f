-- ===== src/Simulator/Examples/Placement.antt =====
-- scheduler.py: tests, and the theorems applied to two engines.
use mathlib.Core.List.{Memᴰ}
use open_tela.Prelude.{
  ok, raised, ◌*◌, ℕ, ◌+◌, ◌<◌, ◌≡◌, refl, List, [], ◌∷◌, none, some, String, arith,
}
use open_tela.Prelude.Text.{lower, is_prefix, occurs_in}
use open_tela.Simulator.Engine.State.{ServingEngine, new_engine, get_current_load}
use open_tela.Simulator.Engine.Loading.{gpu_memory_capacity, refresh_memory_usage, get_memory_info}
use open_tela.Simulator.Memory.Planner.{
  get_allocated_kv_memory_per_shard, get_total_kv_memory_capacity_per_shard,
}
use open_tela.Simulator.Memory.Sizes.{shard_memory, shards}
use open_tela.Simulator.Scheduler.Choice.{
  PlacementDecision, PlacementStatistics, decided, highest_from,
}
use open_tela.Simulator.Scheduler.Algorithms.{
  place_round_robin, at_engine, place_roofline, roofline_score, place_threshold, threshold_score,
}
use open_tela.Simulator.Scheduler.RiskAware.{
  no_estimate_method, tier_of, oom_risk, candidates, final_candidates, least_pressure,
  place_risk_aware,
}
use open_tela.Simulator.Scheduler.Selection.{
  Leads, WeightFor, place_roofline-Leads, place_threshold-Leads,
}
use open_tela.Simulator.Scheduler.Rotation.{after_calls, place_round_robin_fair}
use open_tela.Simulator.Examples.Samples.{planner, request}

engine_a : ServingEngine
unfolding new_engine
engine_a = new_engine "a" "m" "NVDA:RTX3090" 100 100 planner 8

engine_b : ServingEngine
unfolding new_engine
engine_b = new_engine "b" "m" "NVDA:H100" 300 900 planner 8

abbrev engines : List ServingEngine
engines = engine_a ∷ engine_b ∷ []

abbrev no_placements : PlacementStatistics
no_placements = record { total_decisions = 0; placement_reasons = []; rejections = 0 }

abbrev to_b : String → ℕ → PlacementDecision
to_b reason confidence = record {
  target_engine = engine_b;
  reason = reason;
  confidence = confidence;
  estimated_completion_time = none;
}

place_round_robin_fair_example :
    (k : ℕ) × (k < 2)
    × (let (i, s) = after_calls k 7 engines no_placements in
        (place_round_robin i engines s).1.0 ≡ at_engine "round_robin" 20 (some engine_a))
place_round_robin_fair_example = place_round_robin_fair 7 0 engines no_placements (omega arith)

place_roofline-Leads_example :
    Memᴰ engine_b engines
    × ((x : ServingEngine) → Memᴰ x engines → Leads (roofline_score request) engine_b x)
unfolding place_roofline highest_from roofline_score engine_a engine_b new_engine get_current_load
place_roofline-Leads_example =
    place_roofline-Leads request engines no_placements (to_b "roofline_memory_bound" 80) refl

place_threshold-Leads_example :
    Memᴰ engine_b engines
    × ((compute band : ℕ) × WeightFor 5 6 compute
        × WeightFor 5 3 band
        × ((x : ServingEngine)
            → Memᴰ x engines
            → Leads (λ e. compute * e.compute_throughput + band * e.memory_bandwidth) engine_b x))
unfolding place_threshold highest_from threshold_score engine_a engine_b new_engine get_current_load
place_threshold-Leads_example =
    place_threshold-Leads 5 5 request engines no_placements
      (to_b "threshold_adaptive_long_input" 85) refl

-- With the method, the engine of tier 3 is left out; without it, the call raises.
place_risk_aware_test :
    place_risk_aware (some (λ e r. 1000)) 100 100 request engines no_placements
    ≡ ok (decided (some (to_b "risk_aware_tier1" 90)) no_placements)
unfolding place_risk_aware least_pressure final_candidates candidates tier_of oom_risk engine_a
    engine_b new_engine get_current_load gpu_memory_capacity shard_memory shards
    refresh_memory_usage get_memory_info get_allocated_kv_memory_per_shard
    get_total_kv_memory_capacity_per_shard lower is_prefix occurs_in
place_risk_aware_test = refl

risk_aware_raises_test :
    place_risk_aware none 100 100 request engines no_placements ≡ raised no_estimate_method
unfolding place_risk_aware candidates tier_of oom_risk engine_a new_engine lower is_prefix occurs_in
risk_aware_raises_test = refl
