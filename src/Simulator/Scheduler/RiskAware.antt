-- ===== src/Simulator/Scheduler/RiskAware.antt =====
-- scheduler.py: `HeterogeneousRiskAwareScheduler`. The scheduler calls an engine's method
-- `_estimate_kv_cache_memory`. `estimate` is that method: `none` is an engine without it, as every
-- `ServingEngine` is, and the call raises AttributeError. The repository's test gives its engines one.
-- `get_memory_info` refreshes what the engine reports; the refreshed engine is read, and the engine
-- itself is left to the cluster manager.
use open_tela.Prelude.{
  Result, ok, raised, ◌>>=◌, false, ℕ, ◌+◌, ◌-◌, ◌*◌, Bool, true, ◌&&◌, ◌||◌, List, [], ◌∷◌, Option,
  none, some, String, ltb, leb, nat_beq, if◌then◌else◌,
}
use open_tela.Prelude.Text.{codes, lower, occurs_in}
use open_tela.Simulator.Request.{GenerationRequest}
use open_tela.Simulator.Engine.State.{ServingEngine, get_current_load}
use open_tela.Simulator.Engine.Loading.{get_memory_info}
use open_tela.Simulator.Scheduler.Choice.{PlacementDecision, PlacementStatistics, decided}

-- `_get_tier`
unfoldable pub tier_of : ServingEngine → ℕ
unfolding lower occurs_in
tier_of e =
    let hw = lower (codes e.hardware) in
    if occurs_in (codes "h100") hw
    then 1
    else if occurs_in (codes "a100") hw
    then 2
    else if occurs_in (codes "3090") hw || occurs_in (codes "rtx") hw
    then 3
    else 2

pub data SchedulerError : Type 0 where
  no_estimate_method : SchedulerError

abbrev pub EstimateMethod : Type 0
EstimateMethod = Option (ServingEngine → GenerationRequest → ℕ)

-- `engine._estimate_kv_cache_memory(request)`
abbrev pub call_estimate :
    EstimateMethod → ServingEngine → GenerationRequest → Result SchedulerError ℕ
call_estimate none e r = raised no_estimate_method
call_estimate (some f) e r = ok (f e r)

module _ (estimate : EstimateMethod) where
  -- `est_mem_init > (total - model_weights) * 0.8 * buffer`, with the buffer in hundredths. The
  -- weights stand on the other side, since the difference may be negative.
  unfoldable pub oom_risk : ℕ → GenerationRequest → ServingEngine → Result SchedulerError Bool
  unfolding get_memory_info
  oom_risk buffer r e = call_estimate estimate e r >>= λ est_mem_init.
      let info = (get_memory_info e).0 in
      ok (
        ltb (info.total * (80 * buffer))
          (est_mem_init * 10000 + info.model_weights * (80 * buffer)))

  abbrev pub is_blocked : ℕ → GenerationRequest → ServingEngine → Result SchedulerError Bool
  is_blocked buffer r e = if nat_beq (tier_of e) 3 then oom_risk buffer r e else ok false

  -- Step 1: the tier-3 engines that the request might overrun are left out.
  unfoldable pub candidates :
      ℕ → GenerationRequest → List ServingEngine → Result SchedulerError (List ServingEngine)
  candidates buffer r [] = ok []
  candidates buffer r (e ∷ es) =
      let rest = candidates buffer r es in
      is_blocked buffer r e >>= λ blocked. rest >>= λ kept. ok (if blocked then kept else e ∷ kept)

  abbrev pub tier_one : List ServingEngine → List ServingEngine
  tier_one [] = []
  tier_one (e ∷ es) = if nat_beq (tier_of e) 1 then e ∷ tier_one es else tier_one es

  abbrev pub or_else : List ServingEngine → List ServingEngine → List ServingEngine
  or_else [] ys = ys
  or_else (x ∷ xs) ys = x ∷ xs

  -- Step 2: a long prompt goes to tier 1, if there is one.
  unfoldable pub final_candidates : ℕ → GenerationRequest → List ServingEngine → List ServingEngine
  final_candidates threshold r es =
      if ltb threshold r.input_length then or_else (tier_one es) es else es

  -- `(kv_cache + new_kv) / capacity`, as the two numbers.
  abbrev pub Pressure : Type 0
  Pressure = Option (ServingEngine × ℕ × ℕ)

  -- `score < best_score`, or an equal score and a lower load.
  abbrev pub relieves : ℕ → ℕ → ℕ → Pressure → Bool
  relieves used capacity load none = true
  relieves used capacity load (some (b, best_used, best_capacity)) =
      ltb (used * best_capacity) (best_used * capacity)
      || (nat_beq (used * best_capacity) (best_used * capacity) && ltb load (get_current_load b))

  -- One engine in step 3; an engine with no room for a cache is passed over.
  abbrev pub weigh : GenerationRequest → ServingEngine → Pressure → Result SchedulerError Pressure
  weigh r e best =
      let info = (get_memory_info e).0 in
      let capacity = info.total - info.model_weights in
      if leb capacity 0
      then ok best
      else (call_estimate estimate e r >>= λ new_kv.
          let used = info.kv_cache + new_kv in
          ok (
            if relieves used capacity (get_current_load e) best
            then some (e, used, capacity)
            else best))

  -- Step 3: the least pressure.
  unfoldable pub least_pressure :
      GenerationRequest → Pressure → List ServingEngine → Result SchedulerError Pressure
  unfolding get_memory_info
  least_pressure r best [] = ok best
  least_pressure r best (e ∷ es) = weigh r e best >>= λ better. least_pressure r better es

  abbrev tier_reason : ℕ → String
  tier_reason tier =
      if nat_beq tier 1
      then "risk_aware_tier1"
      else if nat_beq tier 2
      then "risk_aware_tier2"
      else "risk_aware_tier3"

  abbrev pub pressure_decision : Pressure → Option PlacementDecision
  pressure_decision none = none
  pressure_decision (some (e, used, capacity)) = some (record {
    target_engine = e;
    reason = tier_reason (tier_of e);
    confidence = 90;
    estimated_completion_time = none;
  })

  -- `place_request`
  unfoldable pub place_risk_aware :
      ℕ
      → ℕ
      → GenerationRequest
      → List ServingEngine
      → PlacementStatistics
      → Result SchedulerError (Option PlacementDecision × PlacementStatistics)
  place_risk_aware threshold buffer r es s = candidates buffer r es >>= λ kept.
      least_pressure r none (final_candidates threshold r kept) >>= λ best.
      ok (decided (pressure_decision best) s)
