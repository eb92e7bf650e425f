-- ===== src/Simulator/Engine/Forming.antt =====
-- engine.py: the exceptions of the formation of a decode batch.
use open_tela.Prelude.{
  ℕ, zero, suc, ◌-◌, ◌≤◌, ◌≡◌, refl, List, [], ◌∷◌, Option, none, some, Result, ok, ◌>>=◌, sum_by,
  arith, Bool-cases, inl, inr, nat_eq, take, length, leb,
}
use open_tela.Prelude.Sets.{one_at, remove, remove-some, sum_by-remove}
use open_tela.Simulator.Engine.State.{ServingEngine, EngineError, Batch}
use open_tela.Simulator.Engine.Decoding.{remove_all, form_decode_batch, add_to_decode_batch}
use open_tela.Simulator.Engine.Stepping.{batch_up}
use open_tela.Simulator.Engine.DecodeFlow.{Lists}
use open_tela.Simulator.Engine.PrefillFlow.{one_at_self}

sum_by-take-le : (f : ℕ → ℕ) (n : ℕ) (xs : List ℕ) → sum_by f (take n xs) ≤ sum_by f xs
sum_by-take-le f zero xs = omega arith
sum_by-take-le f (suc n) [] = omega arith
sum_by-take-le f (suc n) (x ∷ xs) = omega (arith, sum_by-take-le f n xs)

-- Values that a set has, each as often, can be removed from it one after the other.
remove_all_total :
    (hs xs : List ℕ)
    → ((k : ℕ) → sum_by (one_at k) hs ≤ sum_by (one_at k) xs)
    → (rest : List ℕ) × (remove_all hs xs ≡ ok rest)
unfolding remove_all
remove_all_total [] xs le = (xs, refl)
remove_all_total (h ∷ hs) xs le =
    let (left, found) = remove-some h xs (omega (arith, le h, one_at_self h)) in
    let (rest, done) =
      remove_all_total hs left
        (λ k. omega (arith, le k, sum_by-remove (one_at k) h xs left found)) in
    (rest, step found done)
  where
    step :
        {left rest : List ℕ}
        → remove h xs ≡ some left
        → remove_all hs left ≡ ok rest
        → remove_all (h ∷ hs) xs ≡ ok rest
    step found done = rw (found, remove_all) done

module _ (listing : List ℕ → List ℕ) (lists : Lists listing) (e : ServingEngine) where
  chosen_total :
      (n : ℕ)
      → (rest : List ℕ) × (remove_all
            (take n (listing e.decode_ready_requests))
            e.decode_ready_requests
          ≡ ok rest)
  chosen_total n =
      remove_all_total (take n (listing e.decode_ready_requests)) e.decode_ready_requests (λ k.
        omega (
          arith,
          sum_by-take-le (one_at k) n (listing e.decode_ready_requests),
          lists (one_at k) e.decode_ready_requests,
        ))

  bind_total :
      {A B : Type 0} (m : Result EngineError A) (f : A → B) (a : A)
      → m ≡ ok a
      → (b : B) × ((m >>= λ x. ok (f x)) ≡ ok b)
  bind_total m f a h = (f a, rw h refl)

  form_total : (e' : ServingEngine) × (form_decode_batch listing e ≡ ok e')
  unfolding form_decode_batch
  form_total = let (rest, removed) = chosen_total e.max_batch_size in bind_total _ _ rest removed

  add_total : (b : Batch) → (e' : ServingEngine) × (add_to_decode_batch listing b e ≡ ok e')
  unfolding add_to_decode_batch
  add_total b = elim (Bool-cases (leb e.max_batch_size (length b.requests))) [
    | inl full ↦ (e, rw full refl)
    | inr room ↦
        let (rest, removed) = chosen_total (e.max_batch_size - length b.requests) in
        rw room (bind_total _ _ rest removed)
  ]

  -- Where going through a set lists its values, each once, the formation of the decode batch never
  -- raises, whether it forms a batch, adds to the current one, or has nothing to add.
  pub batch_up_total :
      (e' : ServingEngine) × (batch_up listing e.current_decode_batch e.decode_ready_requests e
        ≡ ok e')
  batch_up_total = go e.current_decode_batch e.decode_ready_requests
    where
      go :
          (b : Option Batch) (hs : List ℕ)
          → (e' : ServingEngine) × (batch_up listing b hs e ≡ ok e')
      go none [] = (e, unfold batch_up in refl)
      go (some b) [] = (e, unfold batch_up in refl)
      go none (h ∷ hs) = unfold batch_up in form_total
      go (some b) (h ∷ hs) = unfold batch_up in add_total b
