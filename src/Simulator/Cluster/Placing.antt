-- ===== src/Simulator/Cluster/Placing.antt =====
-- cluster_manager.py: the choice of an engine.
use open_tela.Prelude.{
  ℕ, ◌≡◌, ap, true, Bool-cases, List, [], ◌∷◌, some, String, string_eq, inl, inr,
}
use mathlib.Core.List.{Memᴰ}
use open_tela.Prelude.Dict.{Dict}
use open_tela.Prelude.Sets.{contains}
use open_tela.Simulator.Engine.State.{ServingEngine}
use open_tela.Simulator.Scheduler.Choice.{PlacementDecision}
use open_tela.Simulator.Cluster.State.{ClusterManager, World, available_engines}
use open_tela.Simulator.Cluster.Requests.{decided_by}

-- The engine is registered under an online node.
abbrev pub OnlineEngine : List String → Dict String ServingEngine → ServingEngine → Type 0
OnlineEngine online engines e = (n : String) × (contains n online ≡ true) × Memᴰ (n, e) engines

available_engines-OnlineEngine :
    (online : List String) (engines : Dict String ServingEngine) (e : ServingEngine)
    → Memᴰ e (available_engines online engines)
    → OnlineEngine online engines e
unfolding available_engines
available_engines-OnlineEngine online [] e h = elim h [ ]
available_engines-OnlineEngine online ((n, x) ∷ es) e h = elim (Bool-cases (contains n online)) [
  | inl t ↦ elim (rw t at h) [
    | Memᴰ.head p ↦ (n, t, Memᴰ.head (ap (λ (y : ServingEngine). (n, y)) p))
    | Memᴰ.tail r ↦
        let (k, on, found) = available_engines-OnlineEngine online es e r in
        (k, on, Memᴰ.tail found)
  ]
  | inr f ↦
      let (k, on, found) = available_engines-OnlineEngine online es e (rw f at h) in
      (k, on, Memᴰ.tail found)
]

-- The engine of every decision is registered under a node that is online.
pub decided_by-OnlineEngine :
    {P : Type 0} (w : World P) (m : ClusterManager P) (h : ℕ) (d : PlacementDecision)
    → (decided_by w m h).0 ≡ some d
    → OnlineEngine m.online_nodes m.serving_engines d.target_engine
unfolding decided_by
decided_by-OnlineEngine w m h d decided =
    available_engines-OnlineEngine m.online_nodes m.serving_engines d.target_engine (
      w.among (m.store h) (available_engines m.online_nodes m.serving_engines) m.scheduler d
        decided)
