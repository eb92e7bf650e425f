-- ===== src/Simulator/Cluster/Setup.antt =====
-- cluster_manager.py: what `run_simulation` does before and behind its run.
use open_tela.Prelude.{
  ℕ, zero, suc, ◌+◌, ◌-◌, ◌*◌, ◌/◌, ◌%◌, ◌≤◌, ◌<◌, ◌≡◌, refl, sym, Bool, true, false, Bool-cases,
  List, [], ◌∷◌, Option, none, some, String, Result, ok, raised, >>=-eq-ok, ok-injective, inl, inr,
  arith, ltb,
}
use mathlib.Core.Path.{subst}
use native.Mathlib.Nat.{div-add-mod, mod-lt}
use open_tela.Simulator.Events.{EventLoop, LoopError, schedule_event}
use open_tela.Simulator.Cluster.State.{ClusterManager, NodeConfiguration}
use open_tela.Simulator.Cluster.Growth.{Grows, Grows-refl, Grows-trans, schedule_event-Grows}
use open_tela.Simulator.Cluster.Ledger.{ledger}
use open_tela.Simulator.Cluster.Simulation.{
  update_metrics, arrival_event, schedule_arrivals, simulate_node_failure, balance_event,
  balance_interval, schedule_balancing, schedule_failures, and_then, second,
}

pub and_then_total {ℓ κ} :
    {A : Type ℓ} {B : Type κ} (o : Option (Result LoopError A))
    (f : A → Option (Result LoopError B))
    → ((r : Result LoopError A) × (o ≡ some r))
    → ((a : A) → (r : Result LoopError B) × (f a ≡ some r))
    → (r : Result LoopError B) × (and_then o f ≡ some r)
and_then_total none f (r, h) next = cc
and_then_total (some (raised x)) f h next = (raised x, refl)
and_then_total (some (ok a)) f h next = next a

pub and_then-eq {ℓ κ} :
    {A : Type ℓ} {B : Type κ} (o : Option (Result LoopError A))
    (f : A → Option (Result LoopError B)) (b : B)
    → and_then o f ≡ some (ok b)
    → (a : A) × (o ≡ some (ok a)) × (f a ≡ some (ok b))
and_then-eq none f b h = cc
and_then-eq (some (raised x)) f b h = cc
and_then-eq (some (ok a)) f b h = (a, refl, h)

pub some-injective {ℓ} : {A : Type ℓ} {a b : A} → ◌≡◌ {A = Option A} (some a) (some b) → a ≡ b
some-injective h = cc

-- Enough fuel for the rounds that are left, and for the last test.
pub schedule_balancing_total :
    (fuel t duration : ℕ) (l : EventLoop)
    → duration ≤ t + fuel * balance_interval
    → (r : Result LoopError EventLoop) × (schedule_balancing (suc fuel) t duration l ≡ some r)
unfolding schedule_balancing
schedule_balancing_total zero t duration l enough =
    let h : ltb t duration ≡ false = ground arith in (ok l, rw h)
schedule_balancing_total (suc fuel) t duration l enough = elim (Bool-cases (ltb t duration)) [
  | inl h ↦ rw h (
      and_then_total (some (schedule_event (balance_event t) l)) _ (_, refl)
        (λ l'. schedule_balancing_total fuel (t + balance_interval) duration l' (omega arith)))
  | inr h ↦ (ok l, rw h)
]

pub balancing_fuel_enough :
    (duration : ℕ) → duration ≤ balance_interval + duration / balance_interval * balance_interval
balancing_fuel_enough duration =
    let remainder : duration % balance_interval < balance_interval =
      mod-lt duration (omega arith) in
    omega (arith, div-add-mod duration balance_interval, remainder)

pub schedule_balancing-Grows :
    (fuel t duration : ℕ) (l l' : EventLoop)
    → schedule_balancing fuel t duration l ≡ some (ok l')
    → Grows l l'
unfolding schedule_balancing
schedule_balancing-Grows zero t duration l l' h = cc
schedule_balancing-Grows (suc fuel) t duration l l' h = elim (Bool-cases (ltb t duration)) [
  | inl b ↦
      let (mid, first, rest) =
        and_then-eq (some (schedule_event (balance_event t) l)) _ l' (rw b at h) in
      Grows-trans (schedule_event-Grows (balance_event t) l mid (some-injective first))
        (schedule_balancing-Grows fuel (t + balance_interval) duration mid l' rest)
  | inr b ↦
      let same : l ≡ l' = ok-injective (some-injective (rw b at h)) in rw (sym same) (Grows-refl l)
]

pub schedule_arrivals-Grows :
    (name : ℕ → String) (model : String) (draws : ℕ → ℕ × ℕ) (ts : List ℕ) (n latest : ℕ)
    (l : EventLoop) (after : ℕ × ℕ × EventLoop)
    → schedule_arrivals name model draws ts (n, latest, l) ≡ ok after
    → Grows l after.2
unfolding schedule_arrivals
schedule_arrivals-Grows name model draws [] n latest l after h =
    subst (λ (y : ℕ × ℕ × EventLoop). Grows l y.2) (ok-injective h) (Grows-refl l)
schedule_arrivals-Grows name model draws (t ∷ ts) n latest l after h =
    let (mid, first, rest) =
      >>=-eq-ok (schedule_event (arrival_event (name (n + 1)) model (draws (n + 1)) t) l) _ h in
    Grows-trans (schedule_event-Grows _ l mid first)
      (schedule_arrivals-Grows name model draws ts (n + 1) _ mid after rest)

pub schedule_failures-Grows :
    (b : Bool) (nodes : List NodeConfiguration) (duration : ℕ) (l l' : EventLoop)
    → schedule_failures b nodes duration l ≡ ok l'
    → Grows l l'
unfolding simulate_node_failure
schedule_failures-Grows true (n ∷ n' ∷ ns) duration l l' h =
    let (mid, first, rest) = >>=-eq-ok (schedule_event _ l) _ h in
    Grows-trans (schedule_event-Grows _ l mid first) (schedule_event-Grows _ mid l' rest)
schedule_failures-Grows true [] duration l l' h = rw (sym (ok-injective h)) (Grows-refl l)
schedule_failures-Grows true (n ∷ []) duration l l' h = rw (sym (ok-injective h)) (Grows-refl l)
schedule_failures-Grows false _ duration l l' h = rw (sym (ok-injective h)) (Grows-refl l)

pub update_metrics-ledger :
    {P : Type 0} (now : ℕ) (m : ClusterManager P) → ledger (update_metrics now m) ≡ ledger m
unfolding update_metrics
update_metrics-ledger now m = elim (Bool-cases (ltb (now - m.last_metrics_update) second)) [
  | inl t ↦ rw t refl
  | inr f ↦ rw f refl
]

pub update_metrics-time :
    {P : Type 0} (now : ℕ) (m : ClusterManager P)
    → (update_metrics now m).current_time ≡ m.current_time
unfolding update_metrics
update_metrics-time now m = elim (Bool-cases (ltb (now - m.last_metrics_update) second)) [
  | inl t ↦ rw t refl
  | inr f ↦ rw f refl
]
