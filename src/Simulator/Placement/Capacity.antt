-- ===== src/Simulator/Placement/Capacity.antt =====
-- placement.py: the replicas, their numbers, and the GPUs that they take.
use open_tela.Prelude.{
  ℕ, zero, suc, ◌+◌, ◌*◌, ◌≡◌, refl, sym, Bool-cases, List, [], ◌∷◌, sum_by, String, string_eq, ok,
  >>=-eq-ok, ok-injective, inl, inr, arith, ◌==◌,
}
use mathlib.Core.Path.{subst}
use open_tela.Prelude.Dict.{Dict, get, put, get_or, get-put}
use open_tela.Simulator.Placement.Fitting.{
  PhysicalNodeConfig, WorkloadConfig, Analysis, flatten, copies, insert_ascending, sort_ascending,
}
use open_tela.Simulator.Placement.Replicas.{
  Progress, place_node, min_from, zero_counts, compatible_workloads, place_nodes, maximize_replicas,
}
use open_tela.Simulator.Placement.Counting.{Sound, assign_node-Sound}

place_node-Sound :
    (p : PhysicalNodeConfig) (xs : List (WorkloadConfig × ℕ)) (gpus costs : ℕ) (s s' : Progress)
    → Sound gpus costs s
    → place_node p xs s ≡ ok s'
    → Sound (gpus + p.gpus_per_node) (costs + p.cost) s'
unfolding place_node
place_node-Sound p [] gpus costs s s' v h =
    subst (Sound (gpus + p.gpus_per_node) (costs + p.cost)) (ok-injective h) (record {
      counted = v.counted;
      numbered = v.numbered;
      replicas = v.replicas;
      within = omega (arith, v.within);
      paid = omega (arith, v.paid);
    })
place_node-Sound p (x ∷ xs) gpus costs s s' v h =
    assign_node-Sound p (min_from s.replica_counts x xs) gpus costs s s' v h

place_nodes-Sound :
    (a : Analysis) (wls : List WorkloadConfig) (ps : List PhysicalNodeConfig) (gpus costs : ℕ)
    (s s' : Progress)
    → Sound gpus costs s
    → place_nodes a wls ps s ≡ ok s'
    → Sound
        (gpus + sum_by (λ (p : PhysicalNodeConfig). p.gpus_per_node) ps)
        (costs + sum_by (λ (p : PhysicalNodeConfig). p.cost) ps)
        s'
unfolding place_nodes
place_nodes-Sound a wls [] gpus costs s s' v h =
    subst (Sound (gpus + 0) (costs + 0)) (ok-injective h) (record {
      counted = v.counted;
      numbered = v.numbered;
      replicas = v.replicas;
      within = omega (arith, v.within);
      paid = omega (arith, v.paid);
    })
place_nodes-Sound a wls (p ∷ ps) gpus costs s s' v h =
    let (mid, first, rest) = >>=-eq-ok (place_node p (compatible_workloads a p wls) s) _ h in
    let v' = place_node-Sound p (compatible_workloads a p wls) gpus costs s mid v first in
    let done =
      place_nodes-Sound a wls ps (gpus + p.gpus_per_node) (costs + p.cost) mid s' v' rest in
    record {
      counted = done.counted;
      numbered = done.numbered;
      replicas = done.replicas;
      within = omega (arith, done.within);
      paid = omega (arith, done.paid);
    }

-- Sorting keeps every sum.
insert_ascending-sum_by :
    {A : Type 0} (key f : A → ℕ) (x : A) (xs : List A)
    → sum_by f (insert_ascending key x xs) ≡ f x + sum_by f xs
unfolding insert_ascending
insert_ascending-sum_by key f x [] = refl
insert_ascending-sum_by key f x (y ∷ ys) = ground (arith, insert_ascending-sum_by key f x ys)

sort_ascending-sum_by :
    {A : Type 0} (key f : A → ℕ) (xs : List A) → sum_by f (sort_ascending key xs) ≡ sum_by f xs
unfolding sort_ascending
sort_ascending-sum_by key f [] = refl
sort_ascending-sum_by key f (x ∷ xs) =
    omega (
      arith,
      insert_ascending-sum_by key f x (sort_ascending key xs),
      sort_ascending-sum_by key f xs,
    )

copies-sum_by :
    (f : PhysicalNodeConfig → ℕ) (n : ℕ) (p : PhysicalNodeConfig) (rest : List PhysicalNodeConfig)
    → sum_by f (copies n p rest) ≡ n * f (record p { count = 1 }) + sum_by f rest
copies-sum_by f zero p rest = omega arith
copies-sum_by f (suc n) p rest = grind (arith, copies-sum_by f n p rest)

abbrev pub all_gpus : List PhysicalNodeConfig → ℕ
all_gpus ps = sum_by (λ (p : PhysicalNodeConfig). p.count * p.gpus_per_node) ps

abbrev pub all_costs : List PhysicalNodeConfig → ℕ
all_costs ps = sum_by (λ (p : PhysicalNodeConfig). p.count * p.cost) ps

flatten-sums :
    (ps : List PhysicalNodeConfig)
    → (sum_by (λ (p : PhysicalNodeConfig). p.gpus_per_node) (flatten ps) ≡ all_gpus ps)
      × (sum_by (λ (p : PhysicalNodeConfig). p.cost) (flatten ps) ≡ all_costs ps)
unfolding flatten
flatten-sums [] = (refl, refl)
flatten-sums (p ∷ ps) =
    let (gpus, costs) = flatten-sums ps in
    (
      omega (
        arith,
        gpus,
        copies-sum_by (λ (p : PhysicalNodeConfig). p.gpus_per_node) p.count p (flatten ps),
      ),
      omega
          (arith, costs, copies-sum_by (λ (p : PhysicalNodeConfig). p.cost) p.count p (flatten ps)),
    )

zero_counts-zero :
    (wls : List WorkloadConfig) (counts : Dict String ℕ) (m : String)
    → get_or 0 (get m counts) ≡ 0
    → get_or 0 (get m (zero_counts wls counts)) ≡ 0
unfolding zero_counts
zero_counts-zero [] counts m h = h
zero_counts-zero (wl ∷ wls) counts m h = zero_counts-zero wls (put wl.model_id 0 counts) m (
    rw (get-put wl.model_id m 0 counts)
      (elim (Bool-cases (wl.model_id == m)) [ inl t ↦ rw t refl | inr f ↦ rw f h ]))

-- A placement with as many replicas as possible that returns numbers its replicas from 0 on in their
-- order, and counts as many replicas of every model as there are; the sizes of all replicas together
-- are no more than the GPUs of all physical nodes, and the cost is no more than that of all nodes.
pub maximize_replicas-Sound :
    (a : Analysis) (nodes : List PhysicalNodeConfig) (wls : List WorkloadConfig) (s : Progress)
    → maximize_replicas a nodes wls ≡ ok s
    → Sound (all_gpus nodes) (all_costs nodes) s
unfolding maximize_replicas get
maximize_replicas-Sound a nodes [] s h =
    subst (Sound (all_gpus nodes) (all_costs nodes)) (ok-injective h) (record {
      counted = refl;
      numbered = λ i lt. absurd (omega arith);
      replicas = λ m. refl;
      within = omega arith;
      paid = omega arith;
    })
maximize_replicas-Sound a nodes (wl ∷ wls) s h =
    let key = λ (p : PhysicalNodeConfig). a.vmemory p.gpu_type in
    let (gpus, costs) = flatten-sums nodes in
    let start : Progress = record {
      logical_nodes = [];
      node_counter = 0;
      total_cost = 0;
      replica_counts = zero_counts (wl ∷ wls) [];
    } in
    let done =
      place_nodes-Sound a _ (sort_ascending key (flatten nodes)) 0 0 start s
        (record {
          counted = refl;
          numbered = λ i lt. absurd (omega arith);
          replicas = λ m. sym (zero_counts-zero (wl ∷ wls) [] m refl);
          within = omega arith;
          paid = omega arith;
        })
        h in
    record {
      counted = done.counted;
      numbered = done.numbered;
      replicas = done.replicas;
      within = omega (
        arith,
        done.within,
        gpus,
        sort_ascending-sum_by key (λ (p : PhysicalNodeConfig). p.gpus_per_node) (flatten nodes),
      );
      paid = omega (
        arith,
        done.paid,
        costs,
        sort_ascending-sum_by key (λ (p : PhysicalNodeConfig). p.cost) (flatten nodes),
      );
    }
