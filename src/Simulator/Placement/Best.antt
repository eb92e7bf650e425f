-- ===== src/Simulator/Placement/Best.antt =====
-- placement.py: the candidate that the search returns.
use open_tela.Prelude.{
  ℕ, ◌+◌, ◌≤◌, ◌≡◌, refl, sym, ap, ◌∙◌, ◌⊎◌, true, false, Bool-cases, Option-cases, List, [], ◌∷◌,
  ◌++◌, Option, none, some, String, ok, >>=-eq-ok, ok-injective, inl, inr, arith,
}
use mathlib.Core.List.{Memᴰ}
use mathlib.Core.Path.{subst}
use open_tela.Simulator.Placement.Fitting.{
  PhysicalNodeConfig, WorkloadConfig, LogicalNode, Analysis,
}
use open_tela.Simulator.Placement.Search.{
  Assignment, Candidate, Found, improves, consider, no_nodes, evaluate, search_one, search_all,
  assign_types, build_candidate, empty_candidate, empty_lists, simulation_search,
}

Memᴰ-snoc {ℓ} : {A : Type ℓ} (x y : A) (xs : List A) → Memᴰ x (xs ++ y ∷ []) → Memᴰ x xs ⊎ (x ≡ y)
Memᴰ-snoc x y [] (Memᴰ.head p) = inr p
Memᴰ-snoc x y [] (Memᴰ.tail m) = elim m [ ]
Memᴰ-snoc x y (z ∷ xs) (Memᴰ.head p) = inl (Memᴰ.head p)
Memᴰ-snoc x y (z ∷ xs) (Memᴰ.tail m) = elim (Memᴰ-snoc x y xs m) [
  | inl m' ↦ inl (Memᴰ.tail m')
  | inr p ↦ inr p
]

module _ (simulate : List LogicalNode → Option ℕ) where
  -- The best throughput is that of the simulated best candidate, and no listed one exceeds it.
  pub record Best (s : Found) : Type 0 where
    pub attained :
        (s.best_throughput ≡ none) × (s.best_config ≡ [])
        ⊎ ((b : ℕ) × (s.best_throughput ≡ some b) × (simulate s.best_config ≡ some b))
    pub leads :
        (x : ℕ × ℕ × ℕ) → Memᴰ x s.candidates → (b : ℕ) × (s.best_throughput ≡ some b) × (x.1 ≤ b)

  consider-Best :
      (i t : ℕ) (c : Candidate) (s : Found)
      → simulate c.candidate_nodes ≡ some t
      → Best s
      → Best (consider i c (some t) s)
  unfolding consider
  consider-Best i t c s ran v = elim (Bool-cases (improves t s.best_throughput)) [
    | inl better ↦ rw better (record {
      attained = inr (t, refl, ran);
      leads = λ x m. elim (Memᴰ-snoc x (i, t, c.candidate_cost) s.candidates m) [
        | inl old ↦
            let (b, has, le) = v.leads x old in
            let above : improves t (some b) ≡ true = ap (improves t) (sym has) ∙ better in
            (t, refl, ground arith)
        | inr new ↦ (t, refl, omega (arith, ap (λ (y : ℕ × ℕ × ℕ). y.1) new))
      ];
    })
    | inr worse ↦ rw worse (record {
      attained = v.attained;
      leads = λ x m. elim (Memᴰ-snoc x (i, t, c.candidate_cost) s.candidates m) [
        | inl old ↦ v.leads x old
        | inr new ↦ elim (Option-cases s.best_throughput) [
          | inl n ↦ cc (ap (improves t) n)
          | inr (b, has) ↦
              let below : improves t (some b) ≡ false = ap (improves t) (sym has) ∙ worse in
              let same : x.1 ≡ t = ap (λ (y : ℕ × ℕ × ℕ). y.1) new in (b, has, ground arith)
        ]
      ];
    })
  ]

  evaluate-Best : (i : ℕ) (c : Candidate) (s : Found) → Best s → Best (evaluate simulate i c s)
  unfolding evaluate consider
  evaluate-Best i c s v = elim (Bool-cases (no_nodes c.candidate_nodes)) [
    | inl t ↦ rw t v
    | inr f ↦ elim (Option-cases (simulate c.candidate_nodes)) [
      | inl n ↦ rw (f, n) v
      | inr (t, ran) ↦ rw (f, ran) (consider-Best i t c s ran v)
    ]
  ]

  search_one-Best :
      (a : Analysis) (wls : List WorkloadConfig) (i : ℕ) (o : Option (List (List Assignment)))
      (s s' : Found)
      → Best s
      → search_one a simulate wls i o s ≡ ok s'
      → Best s'
  search_one-Best a wls i none s s' v h = subst Best (ok-injective h) v
  search_one-Best a wls i (some xss) s s' v h =
      let (c, built, done) = >>=-eq-ok (build_candidate wls xss empty_candidate) _ h in
      subst Best (ok-injective done) (evaluate-Best i c s v)

  search_all-Best :
      (a : Analysis) (nodes : List PhysicalNodeConfig) (wls : List WorkloadConfig)
      (types : List String) (i : ℕ) (cs : List (List (List ℕ))) (s s' : Found)
      → Best s
      → search_all a simulate nodes wls types i cs s ≡ ok s'
      → Best s'
  unfolding search_all
  search_all-Best a nodes wls types i [] s s' v h = subst Best (ok-injective h) v
  search_all-Best a nodes wls types i (c ∷ cs) s s' v h =
      let o = assign_types a nodes wls types c (empty_lists wls) in
      let (mid, first, rest) = >>=-eq-ok (search_one a simulate wls i o s) _ h in
      search_all-Best a nodes wls types (i + 1) cs mid s' (search_one-Best a wls i o s mid v first)
        rest

  -- A search that returns gives the placement whose simulated throughput is the best: no candidate
  -- that was simulated has a higher one. Without any such candidate it gives no node.
  pub simulation_search-Best :
      (a : Analysis) (nodes : List PhysicalNodeConfig) (wls : List WorkloadConfig) (s : Found)
      → simulation_search a simulate nodes wls ≡ ok s
      → Best s
  unfolding simulation_search
  simulation_search-Best a nodes [] s h =
      subst Best (ok-injective h)
        (record { attained = inl (refl, refl); leads = λ x m. elim m [ ] })
  simulation_search-Best a nodes (wl ∷ wls) s h =
      search_all-Best a nodes (wl ∷ wls) _ 0 _ _ s
        (record { attained = inl (refl, refl); leads = λ x m. elim m [ ] }) h
