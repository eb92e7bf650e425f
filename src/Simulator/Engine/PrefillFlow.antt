-- ===== src/Simulator/Engine/PrefillFlow.antt =====
-- engine.py: the requests in `_start_next_prefill` and the prefill.
use open_tela.Prelude.{
  ℕ, ◌+◌, ◌≡◌, refl, ◌∙◌, ap, Bool, true, false, List, [], ◌∷◌, Option, none, some, ok, sum_by,
  arith, Bool-cases, inl, inr, ok-injective, nat_eq, ==_self, >>=-eq-ok,
}
use mathlib.Core.Path.{subst}
use open_tela.Prelude.Sets.{one_at, contains, contains-count, sum_by-add}
use open_tela.Simulator.Memory.Planner.{allocate, has_allocation}
use open_tela.Simulator.Engine.State.{ServingEngine, Store}
use open_tela.Simulator.Engine.Loading.{
  lift_memory, can_accommodate_request, reserved, get_memory_info, refresh_memory_usage,
}
use open_tela.Simulator.Engine.Stepping.{
  begin_prefill, start_admitted, start_head, start_next_prefill, process_prefill,
}
use open_tela.Simulator.Engine.Lanes.{
  lanes, current_sum, Flows, Flows-refl, can_accommodate-lanes, reserved-lanes,
}

-- A request that the weights do not find is not in the set.
pub absent-contains : (h : ℕ) (xs : List ℕ) → sum_by (one_at h) xs ≡ 0 → contains h xs ≡ false
absent-contains h xs z = elim (Bool-cases (contains h xs)) [
  | inl e ↦ absurd (omega (arith, contains-count h xs e))
  | inr e ↦ e
]

pub one_at_self : (h : ℕ) → one_at h h ≡ 1
one_at_self h = rw (==_self h)

begin_prefill-Flows :
    (h : ℕ) (queue : List ℕ) (e : ServingEngine) (s : Store)
    → e.prefill_queue ≡ h ∷ queue
    → e.current_prefill_request ≡ none
    → Flows (lanes e) (lanes (begin_prefill h queue (e, s)).0)
unfolding begin_prefill
begin_prefill-Flows h queue e s q c g =
    let queue_sum : (f : ℕ → ℕ) → sum_by f e.prefill_queue ≡ f h + sum_by f queue =
      λ f. ap (sum_by f) q in
    let current_none : (f : ℕ → ℕ) → current_sum f e.current_prefill_request ≡ 0 =
      λ f. ap (current_sum f) c in
    let new : contains h e.active_requests ≡ false = absent-contains h e.active_requests (
      omega (
        arith,
        g.once h,
        g.working (one_at h),
        queue_sum (one_at h),
        current_none (one_at h),
        one_at_self h,
      )) in
    (
      record {
        once = λ k. omega (arith, g.once k, queue_sum (one_at k), current_none (one_at k));
        working =
            λ f. omega (arith, sum_by-add f h e.active_requests new, g.working f, current_none f);
        bounded = g.bounded;
      },
      λ f. omega (arith, queue_sum f, current_none f),
    )

start_admitted-Flows :
    (h : ℕ) (queue : List ℕ) (e : ServingEngine) (s : Store) (fits : Bool)
    (after : ServingEngine × Store)
    → e.prefill_queue ≡ h ∷ queue
    → e.current_prefill_request ≡ none
    → start_admitted h queue s e fits ≡ ok after
    → Flows (lanes e) (lanes after.0)
start_admitted-Flows h queue e s false after q c r =
    subst (λ t. Flows (lanes e) (lanes t.0)) (ok-injective r) (Flows-refl (lanes e))
start_admitted-Flows h queue e s true after q c r =
    let (e', held, done) =
      >>=-eq-ok (reserved e (allocate e.memory_planner (s h)))
        (λ e'. ok (begin_prefill h queue (e', s))) {b = after} r in
    let same : lanes e' ≡ lanes e = reserved-lanes e e' _ held in
    subst (λ t. Flows (lanes e) (lanes t.0)) (ok-injective done)
      (subst (λ l. Flows l (lanes (begin_prefill h queue (e', s)).0)) same
        (begin_prefill-Flows h queue e' s (ap (λ l. l.queue) same ∙ q)
          (ap (λ l. l.current) same ∙ c)))

start_head-Flows :
    (h : ℕ) (queue : List ℕ) (e : ServingEngine) (s : Store) (after : ServingEngine × Store)
    → e.prefill_queue ≡ h ∷ queue
    → e.current_prefill_request ≡ none
    → start_head h queue (e, s) ≡ ok after
    → Flows (lanes e) (lanes after.0)
unfolding start_head
start_head-Flows h queue e s after q c r =
    let (answer, e') = can_accommodate_request e (s h) in
    let same : lanes e' ≡ lanes e = can_accommodate-lanes e (s h) in
    elim (Bool-cases (has_allocation e.memory_planner (s h).req_id)) [
      | inl has ↦
          subst (λ t. Flows (lanes e) (lanes t.0)) (ok-injective (rw has at r))
            (begin_prefill-Flows h queue e s q c)
      | inr lacks ↦
          let (fits, _, r') =
            >>=-eq-ok (lift_memory answer) (start_admitted h queue s e') {b = after}
              (rw lacks at r) in
          subst (λ l. Flows l (lanes after.0)) same
            (start_admitted-Flows h queue e' s fits after (ap (λ l. l.queue) same ∙ q)
              (ap (λ l. l.current) same ∙ c) r')
    ]

pub start_next_prefill-Flows :
    (e : ServingEngine) (s : Store) (after : ServingEngine × Store)
    → start_next_prefill e.current_prefill_request e.prefill_queue (e, s) ≡ ok after
    → Flows (lanes e) (lanes after.0)
start_next_prefill-Flows e s after r = go e.current_prefill_request e.prefill_queue refl refl r
  where
    go :
        (c : Option ℕ) (q : List ℕ)
        → e.current_prefill_request ≡ c
        → e.prefill_queue ≡ q
        → start_next_prefill c q (e, s) ≡ ok after
        → Flows (lanes e) (lanes after.0)
    go none [] ec eq t =
        unfold start_next_prefill in
        subst (λ t. Flows (lanes e) (lanes t.0)) (ok-injective t) (Flows-refl (lanes e))
    go none (h ∷ queue) ec eq t =
        unfold start_next_prefill in start_head-Flows h queue e s after eq ec t
    go (some h) [] ec eq t =
        unfold start_next_prefill in
        subst (λ t. Flows (lanes e) (lanes t.0)) (ok-injective t) (Flows-refl (lanes e))
    go (some h) (k ∷ queue) ec eq t =
        unfold start_next_prefill in
        subst (λ t. Flows (lanes e) (lanes t.0)) (ok-injective t) (Flows-refl (lanes e))

module _ (prefill_time : ℕ → ℕ → ℕ) where
  pub process_prefill-Flows :
      (e : ServingEngine) (s : Store)
      → Flows (lanes e) (lanes (process_prefill prefill_time e.current_prefill_request (e, s)).0)
  process_prefill-Flows e s = go e.current_prefill_request refl
    where
      go :
          (c : Option ℕ)
          → e.current_prefill_request ≡ c
          → Flows (lanes e) (lanes (process_prefill prefill_time c (e, s)).0)
      go none ec = unfold process_prefill in Flows-refl (lanes e)
      go (some h) ec = λ g.
          let now : (f : ℕ → ℕ) → current_sum f e.current_prefill_request ≡ f h =
            λ f. ap (current_sum f) ec in
          let new : contains h e.decode_ready_requests ≡ false =
            absent-contains h e.decode_ready_requests
              (omega (arith, g.once h, now (one_at h), one_at_self h)) in
          unfold process_prefill get_memory_info refresh_memory_usage in
          (
            record {
              once = λ k. omega (
                arith,
                g.once k,
                now (one_at k),
                sum_by-add (one_at k) h e.decode_ready_requests new,
              );
              working = λ f.
                  omega (arith, g.working f, now f, sum_by-add f h e.decode_ready_requests new);
              bounded = g.bounded;
            },
            λ f. omega (arith, now f, sum_by-add f h e.decode_ready_requests new),
          )
