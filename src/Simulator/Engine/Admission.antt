-- ===== src/Simulator/Engine/Admission.antt =====
-- engine.py: the requests in `add_request`.
use open_tela.Prelude.{
  ==_cases, ℕ, ◌+◌, ◌≤◌, ◌≡◌, refl, sym, ◌∙◌, ap, Bool, true, false, [], ◌∷◌, ◌++◌, ok, sum_by,
  arith, inl, inr, ok-injective, nat_eq, sum_by-append, >>=-eq-ok, if◌then◌else◌,
}
use open_tela.Prelude.Sets.{one_at}
use open_tela.Simulator.Memory.Planner.{allocate}
use open_tela.Simulator.Engine.State.{update, ServingEngine, Store, update}
use open_tela.Simulator.Engine.Loading.{
  scheduled, take_request, load_model, lift_memory, can_accommodate_request, reserved, add_request,
}
use open_tela.Simulator.Engine.Lanes.{
  can_accommodate-loads, lanes, weight, Good, can_accommodate-lanes, reserved-lanes,
}

fresh_once : (h k : ℕ) (w : ℕ → ℕ) → w h ≡ 0 → w k ≤ 1 → w k + one_at k h ≤ 1
fresh_once h k w z le = elim (==_cases h k) [
  | inl (t, p) ↦ rw t (omega (arith, ap w p))
  | inr (t, p) ↦ rw t (omega arith)
]

enqueued-Good :
    (h : ℕ) (e : ServingEngine)
    → Good (lanes e)
    → weight (one_at h) (lanes e) ≡ 0
    → let e' = record e { prefill_queue = e.prefill_queue ++ h ∷ [] } in
      Good (lanes e') × ((f : ℕ → ℕ) → weight f (lanes e') ≡ weight f (lanes e) + f h)
enqueued-Good h e g new =
    let sums : (f : ℕ → ℕ) → sum_by f (e.prefill_queue ++ h ∷ []) ≡ sum_by f e.prefill_queue + f h =
      λ f. omega (arith, sum_by-append f e.prefill_queue (h ∷ [])) in
    (
      record {
        once = λ k. omega (
          arith,
          sums (one_at k),
          fresh_once h k (λ t. weight (one_at t) (lanes e)) new (g.once k),
        );
        working = g.working;
        bounded = g.bounded;
      },
      λ f. omega (arith, sums f),
    )

take_request-Good :
    (h : ℕ) (e : ServingEngine) (s : Store) (fits taken : Bool) (after : ServingEngine × Store)
    → Good (lanes e)
    → weight (one_at h) (lanes e) ≡ 0
    → take_request h s e fits ≡ ok (taken, after)
    → Good (lanes after.0)
      × ((f : ℕ → ℕ) → weight f (lanes after.0) ≡ weight f (lanes e) + (if taken then f h else 0))
      × (taken ≡ false → after ≡ (e, s))
take_request-Good h e s false taken after g new r =
    let pair : (false, (e, s)) ≡ (taken, after) = ok-injective r in
    let took : taken ≡ false = ap (λ t. t.0) (sym pair) in
    let there : after ≡ (e, s) = ap (λ t. t.1) (sym pair) in
    rw (took, there) (g, λ f. omega arith, λ _. refl)
take_request-Good h e s true taken after g new r =
    let (e', held, done) =
      >>=-eq-ok (reserved e (allocate e.memory_planner (s h)))
        (λ e'.
          ok (
            true,
            (record e' { prefill_queue = e'.prefill_queue ++ h ∷ [] }, update h scheduled s),
          ))
        {b = (taken, after)} r in
    let same : lanes e' ≡ lanes e = reserved-lanes e e' _ held in
    let (good, sums) = enqueued-Good h e' (rw same g) (ap (weight (one_at h)) same ∙ new) in
    let took : taken ≡ true = cc in
    let there : after.0 ≡ record e' { prefill_queue = e'.prefill_queue ++ h ∷ [] } =
      ap (λ t. t.1.0) (sym (ok-injective done)) in
    rw (took, there) (good, λ f. sums f ∙ ap (λ l. weight f l + f h) same, λ z. cc)

-- Where `add_request` returns for a request that is new to an engine with the invariant, the
-- invariant is kept, and the engine holds the request as well exactly if it says that it took it. If
-- it did not, no request object has changed, and the engine is as `load_model` leaves it.
pub add_request-Good :
    (h : ℕ) (e : ServingEngine) (s : Store) (taken : Bool) (after : ServingEngine × Store)
    → Good (lanes e)
    → weight (one_at h) (lanes e) ≡ 0
    → add_request h (e, s) ≡ ok (taken, after)
    → Good (lanes after.0)
      × ((f : ℕ → ℕ) → weight f (lanes after.0) ≡ weight f (lanes e) + (if taken then f h else 0))
      × (taken ≡ false → after ≡ ((load_model e).1, s))
unfolding add_request
add_request-Good h e s taken after g new r =
    let (answer, e') = can_accommodate_request e (s h) in
    let same : lanes e' ≡ lanes e = can_accommodate-lanes e (s h) in
    let loaded : e' ≡ (load_model e).1 = can_accommodate-loads e (s h) in
    let (fits, _, r') =
      >>=-eq-ok (lift_memory answer) (take_request h s e') {b = (taken, after)} r in
    let (good, sums, left) =
      take_request-Good h e' s fits taken after (rw same g) (ap (weight (one_at h)) same ∙ new)
        r' in
    (
      good,
      λ f. sums f ∙ ap (λ l. weight f l + (if taken then f h else 0)) same,
      λ z. left z ∙ ap (λ t. (t, s)) loaded,
    )
