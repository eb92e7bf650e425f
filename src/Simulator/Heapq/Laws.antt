-- ===== src/Simulator/Heapq/Laws.antt =====
-- heapq: what a push and a pop promise. The contents are read as a multiset: the sum of every weight.
use open_tela.Prelude.{
  ℕ, zero, suc, ◌+◌, ◌*◌, ◌≤◌, ◌<◌, ◌≡◌, refl, ltb, Bool-cases, ltb→lt, List, [], ◌∷◌, ◌++◌, length,
  item, set, none, some, arith, ◌∙◌, sum_by, sum_by-set, sum_by-append, length-append, item-append,
  length-set, item-set, inl, inr, ap,
}
use open_tela.Simulator.Heapq.{
  parent, swap, at_rank, siftdown, smaller_child, sink, siftup, heappush, heappop, front, last,
  IsHeap,
}
use open_tela.Simulator.Heapq.Sift.{Rising, Sinking, length-swap, siftdown-IsHeap, siftup-IsHeap}

module _ {ℓ} {A : Type ℓ} where
  last-front :
      (f : A → ℕ) (x : A) (xs : List A) → sum_by f (front x xs) + f (last x xs) ≡ sum_by f (x ∷ xs)
  last-front f x [] = omega arith
  last-front f x (y ∷ ys) = omega (arith, last-front f y ys)

  length-front : (x : A) (xs : List A) → length (front x xs) ≡ length xs
  length-front x [] = refl
  length-front x (y ∷ ys) = ap suc (length-front y ys)

  item-front :
      (d x : A) (xs : List A) (i : ℕ) → i < length xs → item d (front x xs) i ≡ item d (x ∷ xs) i
  item-front d x [] i h = elim h [ ]
  item-front d x (y ∷ ys) zero h = refl
  item-front d x (y ∷ ys) (suc i) h = item-front d y ys i (omega arith)

module _ {ℓ} {A : Type ℓ} (rank : A → ℕ) (d : A) where
  sum_by-swap :
      (f : A → ℕ) (xs : List A) (i j : ℕ)
      → i < length xs
      → j < length xs
      → sum_by f (swap rank d xs i j) ≡ sum_by f xs
  unfolding swap
  sum_by-swap f xs i j hi hj = ground (
    arith,
    sum_by-set f d xs i (item d xs j) hi,
    length-set xs i (item d xs j),
    sum_by-set f d (set xs i (item d xs j)) j (item d xs i),
    item-set d xs i j (item d xs j) hi,
  )

  sum_by-siftdown :
      (f : A → ℕ) (fuel : ℕ) (xs : List A) (pos : ℕ)
      → pos < length xs
      → sum_by f (siftdown rank d fuel xs pos) ≡ sum_by f xs
  unfolding siftdown
  sum_by-siftdown f zero xs pos h = refl
  sum_by-siftdown f (suc fuel) xs pos h = ground (
    arith,
    sum_by-siftdown f fuel (swap rank d xs pos (parent pos)) (parent pos),
    sum_by-swap f xs pos (parent pos) h,
    length-swap rank d xs pos (parent pos),
  )

  sum_by-sink :
      (f : A → ℕ) (fuel : ℕ) (xs : List A) (pos : ℕ)
      → pos < length xs
      → (sum_by f (sink rank d fuel xs pos).0 ≡ sum_by f xs)
        × ((sink rank d fuel xs pos).1 < length (sink rank d fuel xs pos).0)
  unfolding sink
  sum_by-sink f zero xs pos h = (refl, h)
  sum_by-sink f (suc fuel) xs pos h = elim (Bool-cases (ltb (2 * pos + 1) (length xs))) [
    | inl more ↦
        let c = smaller_child rank d xs pos in
        let hc : c < length xs = child_inside xs pos (ltb→lt _ _ more) in
        let (sums, within) =
          sum_by-sink f fuel (swap rank d xs pos c) c
            (omega (arith, length-swap rank d xs pos c)) in
        rw more (sums ∙ sum_by-swap f xs pos c h hc, within)
    | inr done ↦ rw done (refl, h)
  ]
    where
      child_inside :
          (xs : List A) (pos : ℕ)
          → 2 * pos + 1 < length xs
          → smaller_child rank d xs pos < length xs
      child_inside xs pos h = unfold smaller_child in ground arith

  sum_by-siftup :
      (f : A → ℕ) (xs : List A) → 0 < length xs → sum_by f (siftup rank d xs) ≡ sum_by f xs
  unfolding siftup
  sum_by-siftup f xs h =
      let (ys, pos) = sink rank d (length xs) xs 0 in
      let (sums, within) = sum_by-sink f (length xs) xs 0 h in
      sum_by-siftdown f (length ys) ys pos within ∙ sums

  -- The root of a heap is no greater than any item.
  root-le :
      (xs : List A)
      → IsHeap rank d xs
      → (k i : ℕ) → i ≤ k
      → i < length xs
      → at_rank rank d xs 0 ≤ at_rank rank d xs i
  root-le xs h k zero le hi = omega arith
  root-le xs h zero (suc i) le hi = absurd (omega arith)
  root-le xs h (suc k) (suc i) le hi = omega (
    arith,
    root-le xs h k (parent (suc i)) (omega arith) (omega arith),
    h (suc i) (omega arith) hi,
  )

  append-Rising :
      (xs : List A) (x : A) → IsHeap rank d xs → Rising rank d (xs ++ x ∷ []) (length xs)
  append-Rising xs x h = record {
    rest = λ i pi hi ne.
        let inside : i < length xs = omega (arith, length-append xs (x ∷ [])) in
        rw (item-append d xs (x ∷ []) i inside, item-append d xs (x ∷ []) (parent i) (omega arith))
          (h i pi inside);
    below = λ i pi hi e up. absurd (omega (arith, length-append xs (x ∷ [])));
  }

  -- A push keeps the heap order, and adds the item to the contents.
  pub heappush_lem :
      (xs : List A) (x : A)
      → IsHeap rank d xs
      → IsHeap rank d (heappush rank d xs x)
        × ((f : A → ℕ) → sum_by f (heappush rank d xs x) ≡ sum_by f xs + f x)
  unfolding heappush
  heappush_lem xs x h =
      let inside : length xs < length (xs ++ x ∷ []) = omega (arith, length-append xs (x ∷ [])) in
      (
        siftdown-IsHeap rank d (length xs) (xs ++ x ∷ []) (length xs) (omega arith) inside
            (append-Rising xs x h),
        λ f. omega (
          arith,
          sum_by-siftdown f (length xs) (xs ++ x ∷ []) (length xs) inside,
          sum_by-append f xs (x ∷ []),
        ),
      )

  replaced_item :
      (a b z : A) (t : List A) (i : ℕ)
      → 0 < i
      → i < suc (length t)
      → item d (z ∷ front b t) i ≡ item d (a ∷ b ∷ t) i
  replaced_item a b z t zero pi hi = elim pi [ ]
  replaced_item a b z t (suc i) pi hi = item-front d b t i (omega arith)

  replaced-Sinking :
      (a b z : A) (t : List A) → IsHeap rank d (a ∷ b ∷ t) → Sinking rank d (z ∷ front b t) 0
  replaced-Sinking a b z t h = record {
    rest = λ i pi hi ne pne.
        let inside : i < suc (length t) = omega (arith, length-front b t) in
        rw
          (
            replaced_item a b z t i pi inside,
            replaced_item a b z t (parent i) (omega arith) (omega arith),
          )
          (h i pi (omega arith));
    below = λ i pi hi pe up. absurd (omega arith);
  }

  -- A pop returns an item that no item precedes; what is left is a heap with the other items.
  pub heappop_lem :
      (xs : List A) (x : A) (rest : List A)
      → IsHeap rank d xs
      → heappop rank d xs ≡ some (x, rest)
      → IsHeap rank d rest
        × ((i : ℕ) → i < length xs → rank x ≤ at_rank rank d xs i)
        × ((f : A → ℕ) → sum_by f xs ≡ f x + sum_by f rest)
  unfolding heappop
  heappop_lem [] x rest h e = cc
  heappop_lem (a ∷ []) x rest h e =
      let ea : x ≡ a = cc in
      let er : rest ≡ [] = cc in
      rw (ea, er)
        (λ i pi hi. elim hi [ ], λ i hi. root-le (a ∷ []) h i i (omega arith) hi, λ f. refl)
  heappop_lem (a ∷ b ∷ t) x rest h e =
      let ys = last b t ∷ front b t in
      let ea : x ≡ a = cc in
      let er : rest ≡ siftup rank d ys = cc in
      let s = replaced-Sinking a b (last b t) t h in
      rw (ea, er)
        (
          siftup-IsHeap rank d ys (omega arith) s,
          λ i hi. root-le (a ∷ b ∷ t) h i i (omega arith) hi,
          λ f. omega (arith, sum_by-siftup f ys (omega arith), last-front f b t),
        )

  pub heappop-none : (xs : List A) → heappop rank d xs ≡ none → xs ≡ []
  unfolding heappop
  heappop-none [] e = refl
  heappop-none (a ∷ []) e = cc
  heappop-none (a ∷ b ∷ t) e = cc
