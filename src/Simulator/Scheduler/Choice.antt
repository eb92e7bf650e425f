-- ===== src/Simulator/Scheduler/Choice.antt =====
-- scheduler.py: decisions, their statistics, and the loops that look for the best engine.
use open_tela.Prelude.{
  ℕ, ◌+◌, Bool, true, ◌&&◌, ◌||◌, List, [], ◌∷◌, Option, none, some, String, ltb, nat_beq,
  if◌then◌else◌, string_eq,
}
use open_tela.Prelude.Dict.{Dict, get, put, get_or}
use open_tela.Simulator.Engine.State.{ServingEngine, get_current_load}

pub record PlacementDecision : Type 0 where
  pub target_engine : ServingEngine
  pub reason : String
  pub confidence : ℕ  -- in hundredths
  pub estimated_completion_time : Option ℕ

pub record PlacementStatistics : Type 0 where
  pub total_decisions : ℕ
  pub rejections : ℕ
  pub placement_reasons : Dict String ℕ

abbrev pub no_decisions : PlacementStatistics
no_decisions = record { total_decisions = 0; rejections = 0; placement_reasons = [] }

-- `PlacementAlgorithm.update_statistics`
unfoldable pub update_statistics :
    Option PlacementDecision → PlacementStatistics → PlacementStatistics
update_statistics none s = record s {
  total_decisions = s.total_decisions + 1;
  rejections = s.rejections + 1;
}
update_statistics (some d) s =
    let seen = get_or 0 (get d.reason s.placement_reasons) in
    record s {
      total_decisions = s.total_decisions + 1;
      placement_reasons = put d.reason (seen + 1) s.placement_reasons;
    }

-- The engine, its score and its load; `none` is the start, which every engine beats.
abbrev pub Best : Type 0
Best = Option (ServingEngine × ℕ × ℕ)

-- `score > best_score or (score == best_score and engine_load < best_load)`
abbrev pub beats : ℕ → ℕ → Best → Bool
beats score load none = true
beats score load (some (e, best_score, best_load)) =
    ltb best_score score || (nat_beq score best_score && ltb load best_load)

-- The loop of the schedulers that look for the highest score; a tie goes to the lower load, then to
-- the earlier engine. `max` with the key `(score, -load)` picks the same engine.
unfoldable pub highest_from : (ServingEngine → ℕ) → Best → List ServingEngine → Best
highest_from score best [] = best
highest_from score best (e ∷ es) =
    highest_from score
      (if beats (score e) (get_current_load e) best
        then some (e, score e, get_current_load e)
        else best)
      es

-- `estimated_time < best or (estimated_time == best and engine_load < best_load)`
abbrev pub undercuts : ℕ → ℕ → Best → Bool
undercuts time load none = true
undercuts time load (some (e, best_time, best_load)) =
    ltb time best_time || (nat_beq time best_time && ltb load best_load)

-- The loop of the oracle, which looks for the lowest time.
unfoldable pub lowest_from : (ServingEngine → ℕ) → Best → List ServingEngine → Best
lowest_from time best [] = best
lowest_from time best (e ∷ es) =
    lowest_from time
      (if undercuts (time e) (get_current_load e) best
        then some (e, time e, get_current_load e)
        else best)
      es

-- The decision for the engine that a loop found, and its record in the statistics. With no engine
-- the loop finds none, and the request is rejected.
abbrev pub decision_for : String → ℕ → Best → Option PlacementDecision
decision_for reason confidence none = none
decision_for reason confidence (some (e, score, load)) = some (record {
  target_engine = e;
  reason = reason;
  confidence = confidence;
  estimated_completion_time = none;
})

abbrev pub decided :
    Option PlacementDecision → PlacementStatistics → Option PlacementDecision × PlacementStatistics
decided d s = (d, update_statistics d s)
