-- ===== src/Simulator/Scheduler/Selection.antt =====
-- scheduler.py: the engine that the loops find.
use mathlib.Core.List.{Memᴰ}
use mathlib.Core.Path.{subst}
use open_tela.Prelude.{
  String, ℕ, ◌+◌, ◌*◌, ltb, ◌≤◌, ◌<◌, ◌≡◌, refl, sym, ap, ◌⊎◌, inl, inr, Bool-cases, List, [], ◌∷◌,
  Option, none, some, arith, if◌then◌else◌,
}
use open_tela.Simulator.Request.{GenerationRequest}
use open_tela.Simulator.Engine.State.{ServingEngine, get_current_load}
use open_tela.Simulator.Scheduler.Choice.{
  Best, PlacementDecision, PlacementStatistics, beats, highest_from, decision_for,
}
use open_tela.Simulator.Scheduler.Algorithms.{
  place_roofline, roofline_score, place_threshold, threshold_score,
}

-- `e` is at least as good as `x`: a higher score, or the same score and no higher load.
abbrev pub Leads : (ServingEngine → ℕ) → ServingEngine → ServingEngine → Type 0
Leads score e x =
    (score x < score e) ⊎ (score x ≡ score e) × (get_current_load e ≤ get_current_load x)

-- The engine of the loop's variables leads `x`, and they hold its score and its load.
abbrev BestLeads : (ServingEngine → ℕ) → Best → ServingEngine → Type 0
BestLeads score none x = ⊥
BestLeads score (some (e, s, l)) x = (s ≡ score e) × (l ≡ get_current_load e) × Leads score e x

abbrev Holds : (ServingEngine → ℕ) → Best → Type 0
Holds score none = Unit
Holds score (some (e, s, l)) = (s ≡ score e) × (l ≡ get_current_load e)

abbrev round : (ServingEngine → ℕ) → Best → ServingEngine → Best
round score best e =
    if beats (score e) (get_current_load e) best
    then some (e, score e, get_current_load e)
    else best

module _ (score : ServingEngine → ℕ) where
  round-Holds :
      (best : Best) (e : ServingEngine) → Holds score best → Holds score (round score best e)
  round-Holds none e h = (refl, refl)
  round-Holds (some (b, s, l)) e h =
      elim (Bool-cases (beats (score e) (get_current_load e) (some (b, s, l)))) [
        | inl t ↦ rw t (refl, refl)
        | inr t ↦ rw t h
      ]

  round_self :
      (best : Best) (e : ServingEngine) → Holds score best → BestLeads score (round score best e) e
  round_self none e h = (refl, refl, inr (refl, omega arith))
  round_self (some (b, s, l)) e h =
      elim (Bool-cases (beats (score e) (get_current_load e) (some (b, s, l)))) [
        | inl t ↦ rw t (refl, refl, inr (refl, omega arith))
        | inr t ↦ rw t (h.0, h.1, ground arith)
      ]

  round_keeps :
      (best : Best) (e x : ServingEngine)
      → BestLeads score best x
      → BestLeads score (round score best e) x
  round_keeps none e x h = elim h [ ]
  round_keeps (some (b, s, l)) e x h =
      elim (Bool-cases (beats (score e) (get_current_load e) (some (b, s, l)))) [
        | inl t ↦ rw t (refl, refl, ground arith)
        | inr t ↦ rw t h
      ]

  highest_from_keeps :
      (es : List ServingEngine) (best : Best) (x : ServingEngine)
      → BestLeads score best x
      → BestLeads score (highest_from score best es) x
  unfolding highest_from
  highest_from_keeps [] best x h = h
  highest_from_keeps (e ∷ es) best x h =
      highest_from_keeps es (round score best e) x (round_keeps best e x h)

  highest_from-Leads :
      (es : List ServingEngine) (best : Best) (x : ServingEngine)
      → Holds score best
      → Memᴰ x es
      → BestLeads score (highest_from score best es) x
  unfolding highest_from
  highest_from-Leads [] best x h m = elim m [ ]
  highest_from-Leads (e ∷ es) best x h (Memᴰ.head p) =
      highest_from_keeps es (round score best e) x
        (subst (BestLeads score (round score best e)) (sym p) (round_self best e h))
  highest_from-Leads (e ∷ es) best x h (Memᴰ.tail m) =
      highest_from-Leads es (round score best e) x (round-Holds best e h) m

  abbrev Among : List ServingEngine → Best → Type 0
  Among all none = Unit
  Among all (some (e, s, l)) = Memᴰ e all

  round-Among :
      (all : List ServingEngine) (best : Best) (e : ServingEngine)
      → Among all best
      → Memᴰ e all
      → Among all (round score best e)
  round-Among all best e a m = elim (Bool-cases (beats (score e) (get_current_load e) best)) [
    | inl t ↦ rw t m
    | inr t ↦ rw t a
  ]

  highest_from-Among :
      (all es : List ServingEngine) (best : Best)
      → Among all best
      → ((x : ServingEngine) → Memᴰ x es → Memᴰ x all)
      → Among all (highest_from score best es)
  unfolding highest_from
  highest_from-Among all [] best a inside = a
  highest_from-Among all (e ∷ es) best a inside =
      highest_from-Among all es (round score best e)
        (round-Among all best e a (inside e (Memᴰ.head refl))) (λ x m. inside x (Memᴰ.tail m))

  abbrev found_at : ℕ → ℕ → Option PlacementDecision → Best
  found_at s l none = none
  found_at s l (some d) = some (d.target_engine, s, l)

  decision_for-eq :
      (reason : String) (confidence : ℕ) (best : Best) (d : PlacementDecision)
      → decision_for reason confidence best ≡ some d
      → (s l : ℕ) × (best ≡ some (d.target_engine, s, l))
  decision_for-eq reason confidence none d h = cc
  decision_for-eq reason confidence (some (e, s, l)) d h = (s, l, ap (found_at s l) h)

  -- The engine of a decision is one of the given ones and leads all of them.
  chosen-Leads :
      (reason : String) (confidence : ℕ) (es : List ServingEngine) (d : PlacementDecision)
      → decision_for reason confidence (highest_from score none es) ≡ some d
      → Memᴰ d.target_engine es × ((x : ServingEngine) → Memᴰ x es → Leads score d.target_engine x)
  chosen-Leads reason confidence es d h =
      let (s, l, found) = decision_for-eq reason confidence (highest_from score none es) d h in
      (
        subst (Among es) found (highest_from-Among es es none tt (λ x m. m)),
        λ x m. (subst (λ b. BestLeads score b x) found (highest_from-Leads es none x tt m)).2,
      )

-- `RooflineScheduler` decides for one of the available engines whose roofline score no other exceeds,
-- and no engine of the same score has a lower load.
pub place_roofline-Leads :
    (r : GenerationRequest) (es : List ServingEngine) (s : PlacementStatistics)
    (d : PlacementDecision)
    → (place_roofline r es s).0 ≡ some d
    → Memᴰ d.target_engine es
      × ((x : ServingEngine) → Memᴰ x es → Leads (roofline_score r) d.target_engine x)
unfolding place_roofline
place_roofline-Leads r es s d h = chosen-Leads (roofline_score r) _ 80 es d h

-- A weight in tenths: 10 where the length is above its threshold, else 3.
abbrev pub WeightFor : ℕ → ℕ → ℕ → Type 0
WeightFor threshold len weight =
    (threshold < len) × (weight ≡ 10) ⊎ (len ≤ threshold) × (weight ≡ 3)

weight_for : (threshold len : ℕ) → WeightFor threshold len (if ltb threshold len then 10 else 3)
weight_for threshold len = ground arith

-- The threshold scheduler decides for one of the available engines. The compute throughput counts 10
-- for a prompt above the input threshold and 3 for any other; the bandwidth counts 10 for an output
-- above the output threshold and 3 for any other. No engine has a higher sum, and no engine of the
-- same sum has a lower load.
pub place_threshold-Leads :
    (i o : ℕ) (r : GenerationRequest) (es : List ServingEngine) (s : PlacementStatistics)
    (d : PlacementDecision)
    → (place_threshold i o r es s).0 ≡ some d
    → Memᴰ d.target_engine es
      × ((compute band : ℕ) × WeightFor i r.input_length compute
          × WeightFor o r.output_length band
          × ((x : ServingEngine)
              → Memᴰ x es
              → Leads
                  (λ e. compute * e.compute_throughput + band * e.memory_bandwidth)
                  d.target_engine
                  x))
unfolding place_threshold threshold_score
place_threshold-Leads i o r es s d h =
    let (one, all) = chosen-Leads (threshold_score i o r) _ 85 es d h in
    (one, (_, _, weight_for i r.input_length, weight_for o r.output_length, all))
