-- ===== src/Simulator/Placement/Counting.antt =====
-- placement.py: the replicas of one node.
use open_tela.Prelude.{
  ℕ, zero, suc, ◌+◌, ◌*◌, ◌/◌, ◌≤◌, ◌<◌, ◌≡◌, refl, ap, ◌∙◌, Bool-cases, [], ◌∷◌, ◌++◌, length,
  item, sum_by, sum_by-append, length-append, item-append, item-append_last, String, string_eq, ok,
  ok-injective, ==_cases, nat_beq, inl, inr, arith,
}
use mathlib.Core.Path.{subst}
use native.Mathlib.Nat.{div-add-mod}
use native.Mathlib.Decide.{dec_le}
use open_tela.Prelude.Dict.{Dict, get, put, get_or, get-put}
use open_tela.Prelude.Sets.{one_at}
use open_tela.Simulator.Placement.Fitting.{PhysicalNodeConfig, WorkloadConfig, LogicalNode}
use open_tela.Simulator.Placement.Replicas.{Progress, append_replicas, assign_node}

abbrev pub no_node : LogicalNode
no_node = record { number = 0; model_id = ""; hardware = ""; tp_size = 0 }

abbrev pub replicas_of : String → LogicalNode → ℕ
replicas_of m x = one_at m x.model_id

-- The replicas are numbered in their order, every model's count is its number of replicas, and the
-- replicas take no more GPUs, and the nodes cost no more, than given.
pub record Sound (gpus costs : ℕ) (s : Progress) : Type 0 where
  pub counted : s.node_counter ≡ length s.logical_nodes
  pub numbered : (i : ℕ) → i < length s.logical_nodes → (item no_node s.logical_nodes i).number ≡ i
  pub replicas :
      (m : String) → sum_by (replicas_of m) s.logical_nodes ≡ get_or 0 (get m s.replica_counts)
  pub within : sum_by (λ (x : LogicalNode). x.tp_size) s.logical_nodes ≤ gpus
  pub paid : s.total_cost ≤ costs

abbrev pub Numbered : Progress → Type 0
Numbered s =
    (s.node_counter ≡ length s.logical_nodes)
    × ((i : ℕ) → i < length s.logical_nodes → (item no_node s.logical_nodes i).number ≡ i)

module _ (model hardware : String) (tp : ℕ) where
  pub append_replicas-sum_by :
      (n w : ℕ) (f : LogicalNode → ℕ) (s : Progress)
      → ((k : ℕ)
          → f (record { number = k; model_id = model; hardware = hardware; tp_size = tp }) ≡ w)
      → sum_by f (append_replicas n model hardware tp s).logical_nodes
        ≡ sum_by f s.logical_nodes + n * w
  unfolding append_replicas
  append_replicas-sum_by zero w f s each = omega arith
  append_replicas-sum_by (suc n) w f s each =
      let new : LogicalNode = record {
        number = s.node_counter;
        model_id = model;
        hardware = hardware;
        tp_size = tp;
      } in
      grind (
        arith,
        append_replicas-sum_by n w f
            (record s {
              logical_nodes = s.logical_nodes ++ new ∷ [];
              node_counter = s.node_counter + 1;
            })
            each,
        sum_by-append f s.logical_nodes (new ∷ []),
        each s.node_counter,
      )

  pub append_replicas-Numbered :
      (n : ℕ) (s : Progress) → Numbered s → Numbered (append_replicas n model hardware tp s)
  unfolding append_replicas
  append_replicas-Numbered zero s v = v
  append_replicas-Numbered (suc n) s v =
      let new : LogicalNode = record {
        number = s.node_counter;
        model_id = model;
        hardware = hardware;
        tp_size = tp;
      } in
      append_replicas-Numbered n _ (
        omega (arith, v.0, length-append s.logical_nodes (new ∷ [])),
        λ i lt. elim (dec_le (length s.logical_nodes) i) [
          | yes le ↦
              let last : i ≡ length s.logical_nodes =
                omega (arith, length-append s.logical_nodes (new ∷ [])) in
              rw (last, item-append_last no_node s.logical_nodes new) v.0
          | no above ↦
              rw (item-append no_node s.logical_nodes (new ∷ []) i (omega arith))
                (v.1 i (omega arith))
        ],
      )

  pub append_replicas-rest :
      (n : ℕ) (s : Progress)
      → ((append_replicas n model hardware tp s).total_cost ≡ s.total_cost)
        × ((append_replicas n model hardware tp s).replica_counts ≡ s.replica_counts)
  unfolding append_replicas
  append_replicas-rest zero s = (refl, refl)
  append_replicas-rest (suc n) s = append_replicas-rest n _

-- The count of a model after `n` more replicas of the model `k`.
pub counts_after :
    (m k : String) (n : ℕ) (counts : Dict String ℕ)
    → get_or 0 (get m counts) + n * one_at m k
      ≡ get_or 0 (get m (put k (get_or 0 (get k counts) + n) counts))
counts_after m k n counts = elim (==_cases k m) [
  | inl (q, p) ↦ rw (get-put k m (get_or 0 (get k counts) + n) counts, q, p) (omega arith)
  | inr (q, _) ↦ rw (get-put k m (get_or 0 (get k counts) + n) counts, q) (omega arith)
]

pub assign_node-Sound :
    (p : PhysicalNodeConfig) (x : WorkloadConfig × ℕ) (gpus costs : ℕ) (s s' : Progress)
    → Sound gpus costs s
    → assign_node p x s ≡ ok s'
    → Sound (gpus + p.gpus_per_node) (costs + p.cost) s'
unfolding assign_node
assign_node-Sound p (wl, tp) gpus costs s s' v h = elim (Bool-cases (nat_beq tp 0)) [
  | inl t ↦ cc (rw t at h)
  | inr f ↦
      let n = p.gpus_per_node / tp in
      let old = get_or 0 (get wl.model_id s.replica_counts) in
      let paid = record s {
        total_cost = s.total_cost + p.cost;
        replica_counts = put wl.model_id (old + n) s.replica_counts;
      } in
      let (counted, numbered) =
        append_replicas-Numbered wl.model_id p.gpu_type tp n paid (v.counted, v.numbered) in
      let (cost, counts) = append_replicas-rest wl.model_id p.gpu_type tp n paid in
      subst (Sound (gpus + p.gpus_per_node) (costs + p.cost)) (ok-injective (rw f at h)) (record {
        counted = counted;
        numbered = numbered;
        replicas = λ m. rw counts (
            append_replicas-sum_by wl.model_id p.gpu_type tp n (one_at m wl.model_id)
              (replicas_of m) paid (λ k. refl)
            ∙ ap (λ t. t + n * one_at m wl.model_id) (v.replicas m)
            ∙ counts_after m wl.model_id n s.replica_counts);
        within = ground (
          arith,
          append_replicas-sum_by wl.model_id p.gpu_type tp n tp (λ (x : LogicalNode). x.tp_size)
              paid (λ k. refl),
          v.within,
          div-add-mod p.gpus_per_node tp,
        );
        paid = omega (arith, cost, v.paid);
      })
]
