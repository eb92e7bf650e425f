-- ===== src/Simulator/Scheduler/Algorithms.antt =====
-- scheduler.py: `place_request` of each scheduler but the risk-aware one, and the factory.
use open_tela.Prelude.{
  ℕ, ◌+◌, ◌*◌, ◌%◌, Bool, true, false, ◌&&◌, List, [], ◌∷◌, length, get_elem?, Option, none, some,
  String, ltb, nat_beq, if◌then◌else◌,
}
use open_tela.Prelude.Text.{codes, lower}
use open_tela.Simulator.Request.{GenerationRequest}
use open_tela.Simulator.Engine.State.{ServingEngine}
use open_tela.Simulator.Scheduler.Choice.{
  PlacementDecision, PlacementStatistics, Best, highest_from, lowest_from, decision_for, decided,
}

-- What `place_request` returns, and the statistics behind it.
abbrev pub Placed : Type 0
Placed = Option PlacementDecision × PlacementStatistics

abbrev pub at_engine : String → ℕ → Option ServingEngine → Option PlacementDecision
at_engine reason confidence none = none
at_engine reason confidence (some e) = some (record {
  target_engine = e;
  reason = reason;
  confidence = confidence;
  estimated_completion_time = none;
})

-- `RandomScheduler`; `draw n` is the index below `n` that `random.choice` draws.
unfoldable pub place_random : (ℕ → ℕ) → List ServingEngine → PlacementStatistics → Placed
place_random draw es s =
    decided (at_engine "random_selection" 10 (get_elem? es (draw (length es)))) s

-- `RoundRobinScheduler`: the index moves on only if there is an engine.
unfoldable pub place_round_robin : ℕ → List ServingEngine → PlacementStatistics → ℕ × Placed
place_round_robin index [] s = (index, decided none s)
place_round_robin index (e ∷ es) s = (
  index + 1,
  decided (at_engine "round_robin" 20 (get_elem? (e ∷ es) (index % length (e ∷ es)))) s,
)

abbrev with_estimate : Best → Option PlacementDecision
with_estimate none = none
with_estimate (some (e, time, load)) = some (record {
  target_engine = e;
  reason = "oracle_minimum_completion_time";
  confidence = 100;
  estimated_completion_time = some time;
})

-- `OracleScheduler`; `estimate` is its formula with the power 1.5, in whole units of time.
unfoldable pub place_oracle :
    (GenerationRequest → ServingEngine → ℕ)
    → GenerationRequest
    → List ServingEngine
    → PlacementStatistics
    → Placed
place_oracle estimate r es s = decided (with_estimate (lowest_from (estimate r) none es)) s

unfoldable pub place_flops : List ServingEngine → PlacementStatistics → Placed
place_flops es s =
    decided
      (decision_for "max_compute_throughput" 60 (highest_from (λ e. e.compute_throughput) none es))
      s

unfoldable pub place_bandwidth : List ServingEngine → PlacementStatistics → Placed
place_bandwidth es s =
    decided
      (decision_for "max_memory_bandwidth" 60 (highest_from (λ e. e.memory_bandwidth) none es)) s

-- `intensity < turning_point`: `ops / mem`, or 0 where there is no memory traffic, against
-- `compute_throughput / memory_bandwidth`.
abbrev pub memory_bound : ℕ → ℕ → ServingEngine → Bool
memory_bound ops mem e =
    if ltb 0 mem
    then ltb (ops * e.memory_bandwidth) (e.compute_throughput * mem)
    else ltb 0 e.compute_throughput

abbrev pub roofline_part : ℕ → ℕ → ServingEngine → ℕ
roofline_part ops mem e =
    if memory_bound ops mem e then e.memory_bandwidth else e.compute_throughput

-- `RooflineScheduler`: the operations and the memory of the whole request, in millions.
unfoldable pub roofline_score : GenerationRequest → ServingEngine → ℕ
roofline_score r e =
    let total_ops = r.input_length * r.input_length + r.input_length * r.output_length in
    let total_mem = r.input_length + r.input_length * r.output_length in
    roofline_part total_ops total_mem e

-- `bound_type` is left by the last engine of the loop.
abbrev roofline_reason : GenerationRequest → List ServingEngine → String
roofline_reason r [] = ""
roofline_reason r (e ∷ []) =
    let total_ops = r.input_length * r.input_length + r.input_length * r.output_length in
    let total_mem = r.input_length + r.input_length * r.output_length in
    if memory_bound total_ops total_mem e then "roofline_memory_bound" else "roofline_compute_bound"
roofline_reason r (e ∷ e' ∷ es) = roofline_reason r (e' ∷ es)

unfoldable pub place_roofline :
    GenerationRequest → List ServingEngine → PlacementStatistics → Placed
place_roofline r es s =
    decided (decision_for (roofline_reason r es) 80 (highest_from (roofline_score r) none es)) s

-- `InputOutputAdaptiveScheduler_Roofline`: the score times the total work (or 2, if there is none).
unfoldable pub adaptive_score : GenerationRequest → ServingEngine → ℕ
adaptive_score r e =
    let prefill_score = roofline_part (r.input_length * r.input_length) r.input_length e in
    let traffic = r.input_length * r.output_length in
    let decode_score = roofline_part traffic traffic e in
    if ltb 0 (r.input_length + r.output_length)
    then r.input_length * prefill_score + r.output_length * decode_score
    else prefill_score + decode_score

unfoldable pub place_adaptive :
    GenerationRequest → List ServingEngine → PlacementStatistics → Placed
place_adaptive r es s =
    decided
      (decision_for "input_output_adaptive_roofline" 90 (highest_from (adaptive_score r) none es)) s

-- `InputOutputAdaptiveScheduler_Threshold`: weights in tenths; their sum divides every score alike.
unfoldable pub threshold_score : ℕ → ℕ → GenerationRequest → ServingEngine → ℕ
threshold_score input_threshold output_threshold r e =
    let compute_weight = if ltb input_threshold r.input_length then 10 else 3 in
    let bandwidth_weight = if ltb output_threshold r.output_length then 10 else 3 in
    compute_weight * e.compute_throughput + bandwidth_weight * e.memory_bandwidth

abbrev threshold_reason : Bool → Bool → String
threshold_reason true true = "threshold_adaptive_long_input_long_output"
threshold_reason true false = "threshold_adaptive_long_input"
threshold_reason false true = "threshold_adaptive_long_output"
threshold_reason false false = "threshold_adaptive_short_request"

unfoldable pub place_threshold :
    ℕ → ℕ → GenerationRequest → List ServingEngine → PlacementStatistics → Placed
place_threshold input_threshold output_threshold r es s =
    decided
      (decision_for
        (threshold_reason (ltb input_threshold r.input_length)
          (ltb output_threshold r.output_length))
        85 (highest_from (threshold_score input_threshold output_threshold r) none es))
      s

-- The classes that `get_scheduler` knows.
pub data SchedulerName : Type 0 where
  random round_robin oracle flops bandwidth roofline : SchedulerName
  inputoutput_roofline inputoutput_threshold heterogeneous_risk_aware : SchedulerName

abbrev same_codes : List ℕ → List ℕ → Bool
same_codes [] [] = true
same_codes (c ∷ s) (d ∷ t) = nat_beq c d && same_codes s t
same_codes _ _ = false

abbrev find_scheduler : List (String × SchedulerName) → List ℕ → Option SchedulerName
find_scheduler [] name = none
find_scheduler ((key, kind) ∷ rest) name =
    if same_codes (codes key) name then some kind else find_scheduler rest name

-- `none` is the ValueError.
unfoldable pub get_scheduler : String → Option SchedulerName
unfolding lower
get_scheduler name =
    find_scheduler
      (("random", random)
        ∷ ("round_robin", round_robin)
        ∷ ("oracle", oracle)
        ∷ ("flops", flops)
        ∷ ("bandwidth", bandwidth)
        ∷ ("roofline", roofline)
        ∷ ("inputoutput_roofline", inputoutput_roofline)
        ∷ ("inputoutput_threshold", inputoutput_threshold)
        ∷ ("heterogeneous_risk_aware", heterogeneous_risk_aware)
        ∷ [])
      (lower (codes name))
