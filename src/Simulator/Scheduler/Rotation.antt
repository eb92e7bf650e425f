-- ===== src/Simulator/Scheduler/Rotation.antt =====
-- scheduler.py: round robin, and the statistics.
use native.Mathlib.Nat.{div-add-mod, mod-lt}
use native.Mathlib.Decide.{dec_le}
use open_tela.Prelude.{
  ℕ, zero, suc, ◌+◌, ◌-◌, ◌*◌, ◌/◌, ◌%◌, ◌≤◌, ◌<◌, ◌≡◌, ap, ◌∙◌, List, [], ◌∷◌, length, get_elem?,
  Option, none, some, arith,
}
use open_tela.Prelude.Dict.{get, get_or}
use open_tela.Simulator.Engine.State.{ServingEngine}
use open_tela.Simulator.Memory.Planner.{total}
use open_tela.Simulator.Memory.Blocks.{total-put}
use open_tela.Simulator.Scheduler.Choice.{PlacementDecision, PlacementStatistics, update_statistics}
use open_tela.Simulator.Scheduler.Algorithms.{place_round_robin, at_engine}

mod_unique : (q n j : ℕ) → j < n → (q * n + j) % n ≡ j
mod_unique q n j h = grind (arith, div-add-mod, mod-lt)

before : (i n j : ℕ) → i % n ≤ j → i + (j - i % n) ≡ i / n * n + j
before i n j below = grind (arith, div-add-mod i n)

around : (i n j : ℕ) → j < n → ¬ (i % n ≤ j) → i + (j + n - i % n) ≡ (i / n + 1) * n + j
around i n j h above = grind (arith, div-add-mod i n, mod-lt)

-- Every remainder is met by one of n consecutive numbers.
meets : (i n j : ℕ) → j < n → (k : ℕ) × (k < n) × ((i + k) % n ≡ j)
meets i n j h = elim (dec_le (i % n) j) [
  | yes below ↦
      (j - i % n, omega arith, ap (λ t. t % n) (before i n j below) ∙ mod_unique (i / n) n j h)
  | no above ↦ (
    j + n - i % n,
    omega arith,
    ap (λ t. t % n) (around i n j h above) ∙ mod_unique (i / n + 1) n j h,
  )
]

-- The index and the statistics after `k` calls with the same engines.
unfoldable pub after_calls :
    (k i : ℕ) → List ServingEngine → PlacementStatistics → ℕ × PlacementStatistics
after_calls zero i es s = (i, s)
after_calls (suc k) i es s =
    let called = place_round_robin i es s in after_calls k called.0 es (called.1.1)

after_calls-index :
    (k i : ℕ) (e : ServingEngine) (es : List ServingEngine) (s : PlacementStatistics)
    → (after_calls k i (e ∷ es) s).0 ≡ i + k
unfolding after_calls place_round_robin
after_calls-index zero i e es s = omega arith
after_calls-index (suc k) i e es s = after_calls-index k (i + 1) e es _ ∙ omega arith

-- Of as many consecutive calls as there are engines, each with the index and the statistics that the
-- call before it left, and with the same engines, one places the request on any given engine.
pub place_round_robin_fair :
    (i j : ℕ) (es : List ServingEngine) (s : PlacementStatistics)
    → j < length es
    → (k : ℕ) × (k < length es)
      × (let (i', s') = after_calls k i es s in
          (place_round_robin i' es s').1.0 ≡ at_engine "round_robin" 20 (get_elem? es j))
unfolding place_round_robin
place_round_robin_fair i j [] s h = elim h [ ]
place_round_robin_fair i j (e ∷ es) s h =
    let (k, below, hit) = meets i (length (e ∷ es)) j h in
    (
      k,
      below,
      ap (λ t. at_engine "round_robin" 20 (get_elem? (e ∷ es) t))
          (ap (λ t. t % length (e ∷ es)) (after_calls-index k i e es s) ∙ hit),
    )

-- Every decision is counted once: as a rejection, or under its reason.
abbrev Balanced : PlacementStatistics → Type 0
Balanced s = s.total_decisions ≡ s.rejections + total s.placement_reasons

-- If the total of the decisions is the rejections and the counts of the reasons together, it still
-- is after a decision is counted.
update_statistics-Balanced :
    (d : Option PlacementDecision) (s : PlacementStatistics)
    → Balanced s
    → Balanced (update_statistics d s)
unfolding update_statistics
update_statistics-Balanced none s b = omega arith
update_statistics-Balanced (some d) s b = omega (
  arith,
  total-put d.reason (get_or 0 (get d.reason s.placement_reasons) + 1) s.placement_reasons,
)
