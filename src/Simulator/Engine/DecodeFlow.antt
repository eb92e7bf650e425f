-- ===== src/Simulator/Engine/DecodeFlow.antt =====
-- engine.py: the requests in `_form_decode_batch` and `_add_to_decode_batch`.
use open_tela.Prelude.{
  ℕ, zero, suc, ◌+◌, ◌-◌, ◌≤◌, ◌<◌, ◌≡◌, refl, ◌∙◌, ap, false, List, [], ◌∷◌, none, some, ok,
  sum_by, arith, Bool-cases, Option-cases, inl, inr, ok-injective, nat_eq, sum_by-append, >>=-eq-ok,
  take, length, leb,
}
use open_tela.Prelude.Sets.{one_at, contains, remove, sum_by-remove}
use open_tela.Simulator.Engine.State.{ServingEngine, Batch, add_to_batch}
use open_tela.Simulator.Engine.Decoding.{
  remove_all, push_all, form_decode_batch, add_to_decode_batch,
}
use open_tela.Simulator.Engine.Lanes.{lanes, batch_sum, Flows}
use open_tela.Simulator.Engine.PrefillFlow.{absent-contains, one_at_self}

-- Going through a set lists its values, each once.
abbrev pub Lists : (List ℕ → List ℕ) → Type 0
Lists listing = (f : ℕ → ℕ) (xs : List ℕ) → sum_by f (listing xs) ≡ sum_by f xs

sum_by-remove_all :
    (f : ℕ → ℕ) (hs xs rest : List ℕ)
    → remove_all hs xs ≡ ok rest
    → sum_by f rest + sum_by f hs ≡ sum_by f xs
unfolding remove_all
sum_by-remove_all f [] xs rest r = omega (arith, ap (sum_by f) (ok-injective r))
sum_by-remove_all f (h ∷ hs) xs rest r = elim (Option-cases (remove h xs)) [
  | inl n ↦ absurd (ground arith)
  | inr (left, found) ↦
      omega
        (arith, sum_by-remove f h xs left found, sum_by-remove_all f hs left rest (ground arith))
]

sum_by-one-take : (n : ℕ) (xs : List ℕ) → sum_by (λ _. 1) (take n xs) ≤ n
sum_by-one-take zero xs = omega arith
sum_by-one-take (suc n) [] = omega arith
sum_by-one-take (suc n) (x ∷ xs) = omega (arith, sum_by-one-take n xs)

sum_by-one : (xs : List ℕ) → sum_by (λ _. 1) xs ≡ length xs
sum_by-one [] = refl
sum_by-one (x ∷ xs) = omega (arith, sum_by-one xs)

-- Requests that stand once in all join the batch.
sum_by-push_all :
    (f : ℕ → ℕ) (hs : List ℕ) (b : Batch)
    → ((k : ℕ) → sum_by (one_at k) hs + sum_by (one_at k) b.requests ≤ 1)
    → sum_by f (push_all hs b).requests ≡ sum_by f hs + sum_by f b.requests
sum_by-push_all f [] b once = omega arith
sum_by-push_all f (h ∷ hs) b once =
    let new : contains h b.requests ≡ false =
      absent-contains h b.requests (omega (arith, once h, one_at_self h)) in
    let added : (g : ℕ → ℕ) → sum_by g (add_to_batch h b).requests ≡ sum_by g b.requests + g h =
      λ g. unfold add_to_batch in rw new (sum_by-append g b.requests (h ∷ []) ∙ omega arith) in
    omega (
      arith,
      added f,
      sum_by-push_all f hs (add_to_batch h b) (λ k. omega (arith, added (one_at k), once k)),
    )

module _ (listing : List ℕ → List ℕ) (e e' : ServingEngine) where
  pub form_decode_batch-Flows :
      e.current_decode_batch ≡ none
      → form_decode_batch listing e ≡ ok e'
      → Flows (lanes e) (lanes e')
  unfolding form_decode_batch
  form_decode_batch-Flows empty r g =
      let hs = take e.max_batch_size (listing e.decode_ready_requests) in
      let (rest, removed, done) = >>=-eq-ok (remove_all hs e.decode_ready_requests) _ r in
      let sums : (f : ℕ → ℕ) → sum_by f rest + sum_by f hs ≡ sum_by f e.decode_ready_requests =
        λ f. sum_by-remove_all f hs e.decode_ready_requests rest removed in
      let none_before : (f : ℕ → ℕ) → batch_sum f e.current_decode_batch ≡ 0 =
        λ f. ap (batch_sum f) empty in
      rw (← ok-injective done) (
        record {
          once = λ k. omega (arith, g.once k, sums (one_at k), none_before (one_at k));
          working = λ f. omega (arith, g.working f, sums f, none_before f);
          bounded = sum_by-one-take e.max_batch_size (listing e.decode_ready_requests);
        },
        λ f. omega (arith, sums f, none_before f),
      )

  pub add_to_decode_batch-Flows :
      (b : Batch)
      → e.current_decode_batch ≡ some b
      → add_to_decode_batch listing b e ≡ ok e'
      → Flows (lanes e) (lanes e')
  unfolding add_to_decode_batch
  add_to_decode_batch-Flows b has r g =
      let size = length b.requests in
      let hs = take (e.max_batch_size - size) (listing e.decode_ready_requests) in
      elim (Bool-cases (leb e.max_batch_size size)) [
        | inl full ↦ rw (← ok-injective (rw full at r)) (g, λ f. refl)
        | inr room ↦
            let (rest, removed, done) =
              >>=-eq-ok (remove_all hs e.decode_ready_requests) _ (rw room at r) in
            let sums : (f : ℕ → ℕ)
                → sum_by f rest + sum_by f hs ≡ sum_by f e.decode_ready_requests =
              λ f. sum_by-remove_all f hs e.decode_ready_requests rest removed in
            let before : (f : ℕ → ℕ) → batch_sum f e.current_decode_batch ≡ sum_by f b.requests =
              λ f. ap (batch_sum f) has in
            let pushed : (f : ℕ → ℕ)
                → sum_by f (push_all hs b).requests ≡ sum_by f hs + sum_by f b.requests =
              λ f.
                sum_by-push_all f hs b
                  (λ k. omega (arith, g.once k, sums (one_at k), before (one_at k))) in
            let below : size < e.max_batch_size = ground arith in
            rw (← ok-injective done) (
              record {
                once = λ k.
                    omega (arith, g.once k, sums (one_at k), before (one_at k), pushed (one_at k));
                working = λ f. omega (arith, g.working f, sums f, before f, pushed f);
                bounded = omega (
                  arith,
                  pushed (λ _. 1),
                  sum_by-one b.requests,
                  sum_by-one-take (e.max_batch_size - size) (listing e.decode_ready_requests),
                  below,
                );
              },
              λ f. omega (arith, sums f, before f, pushed f),
            )
      ]
