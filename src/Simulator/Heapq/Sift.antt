-- ===== src/Simulator/Heapq/Sift.antt =====
-- heapq: the two sift loops and the heap order.
use open_tela.Prelude.{
  Bool-cases, ltb→lt, inl, inr, ◌⊎◌, ℕ, zero, suc, ◌+◌, ◌*◌, ◌≤◌, ◌<◌, ◌≡◌, ◌≢◌, refl, ltb, nat_beq,
  if◌then◌else◌, List, length, item, set, arith, item-set, length-set, ◌∙◌,
}
use open_tela.Simulator.Heapq.{parent, swap, at_rank, siftdown, smaller_child, sink, siftup, IsHeap}

module _ {ℓ} {A : Type ℓ} (rank : A → ℕ) (d : A) where
  pub length-swap : (xs : List A) (i j : ℕ) → length (swap rank d xs i j) ≡ length xs
  unfolding swap
  length-swap xs i j = length-set _ j _ ∙ length-set xs i _

  rank-swap :
      (xs : List A) (i j k : ℕ)
      → i < length xs
      → j < length xs
      → at_rank rank d (swap rank d xs i j) k ≡ (
          if nat_beq j k
          then at_rank rank d xs i
          else if nat_beq i k
          then at_rank rank d xs j
          else at_rank rank d xs k)
  unfolding swap
  rank-swap xs i j k hi hj = ground (
    arith,
    length-set xs i (item d xs j),
    item-set d xs i k (item d xs j) hi,
    item-set d (set xs i (item d xs j)) j k (item d xs i),
  )

  -- The order holds but between `pos` and its parent, and the children of `pos` respect that parent.
  pub record Rising (xs : List A) (pos : ℕ) : Type 0 where
    pub rest :
        (i : ℕ)
        → 0 < i
        → i < length xs
        → i ≢ pos
        → at_rank rank d xs (parent i) ≤ at_rank rank d xs i
    pub below :
        (i : ℕ)
        → 0 < i
        → i < length xs
        → parent i ≡ pos
        → 0 < pos
        → at_rank rank d xs (parent pos) ≤ at_rank rank d xs i

  Rising-swap :
      (xs : List A) (pos : ℕ)
      → pos < length xs
      → 0 < pos
      → at_rank rank d xs pos < at_rank rank d xs (parent pos)
      → Rising xs pos
      → Rising (swap rank d xs pos (parent pos)) (parent pos)
  Rising-swap xs pos inside up less r = record {
    rest = λ i pi hi ne. ground (
      arith,
      length-swap xs pos (parent pos),
      rank-swap xs pos (parent pos) i inside,
      rank-swap xs pos (parent pos) (parent i) inside,
      r.rest i pi,
      r.below i pi,
    );
    below = λ i pi hi e up'. ground (
      arith,
      length-swap xs pos (parent pos),
      rank-swap xs pos (parent pos) i inside,
      rank-swap xs pos (parent pos) (parent (parent pos)) inside,
      r.rest i pi,
      r.rest (parent pos),
      r.below i pi,
    );
  }

  pub length-siftdown :
      (fuel : ℕ) (xs : List A) (pos : ℕ) → length (siftdown rank d fuel xs pos) ≡ length xs
  unfolding siftdown
  length-siftdown zero xs pos = refl
  length-siftdown (suc fuel) xs pos = ground (
    arith,
    length-siftdown fuel (swap rank d xs pos (parent pos)) (parent pos),
    length-swap xs pos (parent pos),
  )

  pub siftdown-IsHeap :
      (fuel : ℕ) (xs : List A) (pos : ℕ)
      → pos ≤ fuel
      → pos < length xs
      → Rising xs pos
      → IsHeap rank d (siftdown rank d fuel xs pos)
  unfolding siftdown
  siftdown-IsHeap zero xs pos enough inside r = λ i pi hi. r.rest i pi hi (λ e. omega arith)
  siftdown-IsHeap (suc fuel) xs pos enough inside r = elim (Bool-cases (nat_beq pos 0)) [
    | inl z ↦ rw z (λ i pi hi. r.rest i pi hi (λ e. ground arith))
    | inr up ↦ elim (Bool-cases (ltb (at_rank rank d xs pos) (at_rank rank d xs (parent pos)))) [
      | inl less ↦ rw up (
          rw less (
            siftdown-IsHeap fuel (swap rank d xs pos (parent pos)) (parent pos) (ground arith)
              (ground (arith, length-swap xs pos (parent pos)))
              (Rising-swap xs pos inside (ground arith) (ltb→lt _ _ less) r)))
      | inr stay ↦ rw up (rw stay (λ i pi hi. settled (ground arith) i pi hi (dec_eq i)))
    ]
  ]
    where
      dec_eq : (i : ℕ) → (i ≡ pos) ⊎ (i ≢ pos)
      dec_eq i = ground arith

      settled :
          at_rank rank d xs (parent pos) ≤ at_rank rank d xs pos
          → (i : ℕ) → 0 < i
          → i < length xs
          → (i ≡ pos) ⊎ (i ≢ pos)
          → at_rank rank d xs (parent i) ≤ at_rank rank d xs i
      settled order i pi hi (inl e) = rw e order
      settled order i pi hi (inr ne) = r.rest i pi hi ne

  -- The order holds but between `pos` and its children, which respect the parent of `pos`.
  pub record Sinking (xs : List A) (pos : ℕ) : Type 0 where
    pub rest :
        (i : ℕ)
        → 0 < i
        → i < length xs
        → i ≢ pos
        → parent i ≢ pos
        → at_rank rank d xs (parent i) ≤ at_rank rank d xs i
    pub below :
        (i : ℕ)
        → 0 < i
        → i < length xs
        → parent i ≡ pos
        → 0 < pos
        → at_rank rank d xs (parent pos) ≤ at_rank rank d xs i

  -- The child that is moved up is no greater than its sibling.
  smaller_child_lem :
      (xs : List A) (pos : ℕ)
      → 2 * pos + 1 < length xs
      → (smaller_child rank d xs pos < length xs)
        × (parent (smaller_child rank d xs pos) ≡ pos)
        × (pos < smaller_child rank d xs pos)
        × ((i : ℕ)
            → 0 < i
            → i < length xs
            → parent i ≡ pos
            → at_rank rank d xs (smaller_child rank d xs pos) ≤ at_rank rank d xs i)
  unfolding smaller_child
  smaller_child_lem xs pos h =
      (ground arith, ground arith, ground arith, λ i pi hi e. least i hi (children i pi e))
    where
      children : (i : ℕ) → 0 < i → parent i ≡ pos → (i ≡ 2 * pos + 1) ⊎ (i ≡ 2 * pos + 1 + 1)
      children i pi e = omega arith

      least :
          (i : ℕ)
          → i < length xs
          → (i ≡ 2 * pos + 1) ⊎ (i ≡ 2 * pos + 1 + 1)
          → at_rank rank d xs (smaller_child rank d xs pos) ≤ at_rank rank d xs i
      least i hi (inl q) = rw q (ground arith)
      least i hi (inr q) = rw q (ground arith)

  Sinking-swap :
      (xs : List A) (pos c : ℕ)
      → pos < length xs
      → c < length xs
      → parent c ≡ pos
      → pos < c
      → ((i : ℕ)
          → 0 < i
          → i < length xs
          → parent i ≡ pos
          → at_rank rank d xs c ≤ at_rank rank d xs i)
      → Sinking xs pos
      → Sinking (swap rank d xs pos c) c
  Sinking-swap xs pos c inside hc e lower least s = record {
    rest = λ i pi hi ne pne. ground (
      arith,
      length-swap xs pos c,
      rank-swap xs pos c i inside hc,
      rank-swap xs pos c (parent i) inside hc,
      s.rest i pi,
      s.below i pi,
      s.below c,
      least i pi,
    );
    below = λ i pi hi pe pc. ground (
      arith,
      length-swap xs pos c,
      rank-swap xs pos c i inside hc,
      rank-swap xs pos c (parent c) inside hc,
      s.rest i pi,
      least i pi,
    );
  }

  -- At a leaf only the parent of `pos` may be greater.
  leaf-Rising : (xs : List A) (pos : ℕ) → length xs ≤ 2 * pos + 1 → Sinking xs pos → Rising xs pos
  leaf-Rising xs pos h s = record {
    rest = λ i pi hi ne. s.rest i pi hi ne (λ e. omega arith);
    below = λ i pi hi e up. absurd (omega arith);
  }

  sink-Rising :
      (fuel : ℕ) (xs : List A) (pos : ℕ)
      → length xs ≤ fuel + pos
      → pos < length xs
      → Sinking xs pos
      → Rising (sink rank d fuel xs pos).0 (sink rank d fuel xs pos).1
        × ((sink rank d fuel xs pos).1 < length (sink rank d fuel xs pos).0)
        × (length (sink rank d fuel xs pos).0 ≡ length xs)
  unfolding sink
  sink-Rising zero xs pos enough inside s = absurd (omega arith)
  sink-Rising (suc fuel) xs pos enough inside s =
      let c = smaller_child rank d xs pos in
      elim (Bool-cases (ltb (2 * pos + 1) (length xs))) [
        | inl more ↦
            let (hc, e, lower, least) = smaller_child_lem xs pos (ltb→lt _ _ more) in
            let same = length-swap xs pos c in
            let (rising, within, len) =
              sink-Rising fuel (swap rank d xs pos c) c (omega arith) (omega arith)
                (Sinking-swap xs pos c inside hc e lower least s) in
            rw more (rising, within, len ∙ same)
        | inr done ↦ rw done (leaf-Rising xs pos (ground arith) s, inside, refl)
      ]

  pub length-siftup :
      (xs : List A) → 0 < length xs → Sinking xs 0 → length (siftup rank d xs) ≡ length xs
  unfolding siftup
  length-siftup xs h s =
      let (ys, pos) = sink rank d (length xs) xs 0 in
      length-siftdown (length ys) ys pos ∙ (sink-Rising (length xs) xs 0 (omega arith) h s).2

  pub siftup-IsHeap :
      (xs : List A) → 0 < length xs → Sinking xs 0 → IsHeap rank d (siftup rank d xs)
  unfolding siftup
  siftup-IsHeap xs h s =
      let (ys, pos) = sink rank d (length xs) xs 0 in
      let (rising, within, _) = sink-Rising (length xs) xs 0 (omega arith) h s in
      siftdown-IsHeap (length ys) ys pos (omega arith) within rising
