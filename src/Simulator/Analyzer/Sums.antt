-- ===== src/Simulator/Analyzer/Sums.antt =====
-- model_analyzer.py: the sums of the weights over the layers, and the results behind `analyze`.
use open_tela.Prelude.{
  ℕ, ◌+◌, ◌*◌, ◌≡◌, refl, sym, ap, Option-cases, List, [], ◌∷◌, Option, none, some, sum_by, inl,
  inr, arith,
}
use open_tela.Simulator.Analyzer.Layers.{Layer}
use open_tela.Simulator.Analyzer.Totals.{Total, add_layer, add_layers, add_time, inference_time}

pub some-injective {ℓ} : {A : Type ℓ} {a b : A} → ◌≡◌ {A = Option A} (some a) (some b) → a ≡ b
some-injective h = cc

abbrev pub weight_of : Layer → ℕ
weight_of l = l.cost.load_weight

module _ (bandwidth peak times : ℕ) where
  pub add_time-weight :
      (l : Layer) (o : Option ℕ) (t t' : Total)
      → add_time l.cost times o t ≡ some t'
      → t'.costs.load_weight ≡ t.costs.load_weight + weight_of l * times
  add_time-weight l none t t' h = cc
  add_time-weight l (some dt) t t' h =
      ap (λ (y : Total). y.costs.load_weight) (sym (some-injective h))

  pub add_layers-none : (ls : List Layer) → add_layers bandwidth peak times ls none ≡ none
  unfolding add_layers add_layer
  add_layers-none [] = refl
  add_layers-none (l ∷ ls) = add_layers-none ls

  pub add_layers-weight :
      (ls : List Layer) (t t' : Total)
      → add_layers bandwidth peak times ls (some t) ≡ some t'
      → t'.costs.load_weight ≡ t.costs.load_weight + sum_by weight_of ls * times
  unfolding add_layers add_layer
  add_layers-weight [] t t' h =
      omega (arith, ap (λ (y : Total). y.costs.load_weight) (some-injective h))
  add_layers-weight (l ∷ ls) t t' h =
      elim (Option-cases (add_time l.cost times (inference_time bandwidth peak l.cost) t)) [
        | inl n ↦ cc (rw (n, add_layers-none ls) at h)
        | inr (mid, e) ↦
            let first = add_time-weight l (inference_time bandwidth peak l.cost) t mid e in
            let rest = add_layers-weight ls mid t' (rw e at h) in grind (arith, first, rest)
      ]
