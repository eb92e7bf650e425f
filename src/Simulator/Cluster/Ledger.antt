-- ===== src/Simulator/Cluster/Ledger.antt =====
-- cluster_manager.py: the counters of the manager, its requests and its nodes.
use open_tela.Prelude.{
  ℕ, ◌+◌, ◌≤◌, ◌≡◌, true, Bool-cases, List, [], ◌∷◌, ◌++◌, length, length-append, length-sum_by,
  some, String, string_eq, sum_by, inl, inr, arith,
}
use open_tela.Prelude.Dict.{Dict, get, put, pop, get_or, length-put-le, length-pop}
use open_tela.Prelude.Sets.{
  add, remove, contains, one_at, contains-count, sum_by-remove, sum_by-add, remove-some,
}
use open_tela.Simulator.Cluster.State.{ClusterManager}

-- The part of the manager's state that is counted.
pub record Ledger : Type 0 where
  pub active : Dict String ℕ
  pub finished : List ℕ
  pub total : ℕ
  pub completed : ℕ
  pub rejected : ℕ
  pub failures : ℕ
  pub recoveries : ℕ
  pub online : List String
  pub offline : List String

abbrev pub ledger : {P : Type 0} → ClusterManager P → Ledger
ledger m = record {
  active = m.active_requests;
  finished = m.completed_requests;
  total = m.metrics.total_requests;
  completed = m.metrics.completed_requests;
  rejected = m.metrics.rejected_requests;
  failures = m.metrics.node_failures;
  recoveries = m.metrics.node_recoveries;
  online = m.online_nodes;
  offline = m.offline_nodes;
}

-- Every request that has arrived is active, completed or rejected.
abbrev pub Accounted : Ledger → Type 0
Accounted a = length a.active + a.completed + a.rejected ≡ a.total

-- `nodes n` is how often the node `n` stands in the two sets together: once, or not at all.
pub record Census (nodes : String → ℕ) (a : Ledger) : Type 0 where
  pub no_more : length a.active + a.completed + a.rejected ≤ a.total
  pub finishes : a.completed ≡ length a.finished
  pub outages : a.failures ≡ a.recoveries + length a.offline
  pub once : (n : String) → nodes n ≤ 1
  pub stands : (n : String) → sum_by (one_at n) a.online + sum_by (one_at n) a.offline ≡ nodes n

abbrev pub after_arrival : String → ℕ → Ledger → Ledger
after_arrival id h a = record a { active = put id h a.active; total = a.total + 1 }

abbrev pub after_rejection : String → Ledger → Ledger
after_rejection id a = record a { active = pop id a.active; rejected = a.rejected + 1 }

abbrev pub after_completion : String → ℕ → Ledger → Ledger
after_completion id h a = record a {
  active = pop id a.active;
  finished = a.finished ++ h ∷ [];
  completed = a.completed + 1;
}

abbrev pub after_failure : String → Ledger → Ledger
after_failure n a = record a {
  online = get_or a.online (remove n a.online);
  offline = add n a.offline;
  failures = a.failures + 1;
}

abbrev pub after_recovery : String → Ledger → Ledger
after_recovery n a = record a {
  offline = get_or a.offline (remove n a.offline);
  online = add n a.online;
  recoveries = a.recoveries + 1;
}

-- A member that moves from one set to another, where it is not.
moves :
    (n : String) (from to : List String) (f : String → ℕ)
    → contains n from ≡ true
    → sum_by (one_at n) from + sum_by (one_at n) to ≤ 1
    → (sum_by f (get_or from (remove n from)) + f n ≡ sum_by f from)
      × (sum_by f (add n to) ≡ f n + sum_by f to)
moves n from to f h le =
    let once = contains-count n from h in
    let (rest, found) = remove-some n from once in
    (
      rw found (sum_by-remove f n from rest found),
      sum_by-add f n to (elim (Bool-cases (contains n to)) [
        | inl t ↦ absurd (omega (arith, contains-count n to t))
        | inr f ↦ f
      ]),
    )

module _ (nodes : String → ℕ) where
  pub arrival-Census :
      (id : String) (h : ℕ) (a : Ledger) → Census nodes a → Census nodes (after_arrival id h a)
  arrival-Census id h a c = record {
    no_more = omega (arith, c.no_more, length-put-le id h a.active);
    finishes = c.finishes;
    outages = c.outages;
    once = c.once;
    stands = c.stands;
  }

  pub rejection-Census :
      (id : String) (h : ℕ) (a : Ledger)
      → get id a.active ≡ some h
      → Census nodes a
      → Census nodes (after_rejection id a)
  rejection-Census id h a found c = record {
    no_more = omega (arith, c.no_more, length-pop id h a.active found);
    finishes = c.finishes;
    outages = c.outages;
    once = c.once;
    stands = c.stands;
  }

  pub completion-Census :
      (id : String) (h : ℕ) (a : Ledger)
      → get id a.active ≡ some h
      → Census nodes a
      → Census nodes (after_completion id h a)
  completion-Census id h a found c = record {
    no_more = omega (arith, c.no_more, length-pop id h a.active found);
    finishes = omega (arith, c.finishes, length-append a.finished (h ∷ []));
    outages = c.outages;
    once = c.once;
    stands = c.stands;
  }

  pub failure-Census :
      (n : String) (a : Ledger)
      → contains n a.online ≡ true
      → Census nodes a
      → Census nodes (after_failure n a)
  failure-Census n a h c =
      let move =
        λ (f : String → ℕ). moves n a.online a.offline f h (omega (arith, c.once n, c.stands n)) in
      record {
        no_more = c.no_more;
        finishes = c.finishes;
        outages = omega (
          arith,
          c.outages,
          (move (λ x. 1)).1,
          length-sum_by a.offline,
          length-sum_by (add n a.offline),
        );
        once = c.once;
        stands = λ k. omega (arith, c.stands k, move (one_at k));
      }

  pub recovery-Census :
      (n : String) (a : Ledger)
      → contains n a.offline ≡ true
      → Census nodes a
      → Census nodes (after_recovery n a)
  recovery-Census n a h c =
      let move =
        λ (f : String → ℕ). moves n a.offline a.online f h (omega (arith, c.once n, c.stands n)) in
      record {
        no_more = c.no_more;
        finishes = c.finishes;
        outages = omega (
          arith,
          c.outages,
          (move (λ x. 1)).0,
          length-sum_by a.offline,
          length-sum_by (get_or a.offline (remove n a.offline)),
        );
        once = c.once;
        stands = λ k. omega (arith, c.stands k, move (one_at k));
      }
