-- ===== src/Simulator/Placement/Partitions.antt =====
-- placement.py: the partitions and the best candidate.
use open_tela.Prelude.{
  ℕ, zero, suc, ◌+◌, ◌-◌, ◌≤◌, ◌<◌, ◌≡◌, refl, Bool, true, false, Bool-cases, ◌&&◌, List, [], ◌∷◌,
  map, length, sum_by, sum_by-append, nat_beq, ltb, leb, if◌then◌else◌, inl, inr, arith,
}
use open_tela.Simulator.Placement.Search.{firsts, generate_partitions}

abbrev pub same_parts : List ℕ → List ℕ → Bool
same_parts [] [] = true
same_parts (x ∷ p) (y ∷ q) = nat_beq x y && same_parts p q
same_parts _ _ = false

-- 1 at the partition `p`, 0 elsewhere.
abbrev pub one_if_same : List ℕ → List ℕ → ℕ
one_if_same p q = if same_parts p q then 1 else 0

abbrev pub total : List ℕ → ℕ
total [] = 0
total (x ∷ xs) = x + total xs

map-sum_by :
    (x i : ℕ) (p : List ℕ) (ps : List (List ℕ))
    → sum_by (one_if_same (x ∷ p)) (map (λ q. i ∷ q) ps)
      ≡ (if nat_beq x i then sum_by (one_if_same p) ps else 0)
map-sum_by x i p [] = ground arith
map-sum_by x i p (q ∷ ps) = ground (arith, map-sum_by x i p ps)

map-sum_by_empty : (i : ℕ) (ps : List (List ℕ)) → sum_by (one_if_same []) (map (λ q. i ∷ q) ps) ≡ 0
map-sum_by_empty i [] = refl
map-sum_by_empty i (q ∷ ps) = omega (arith, map-sum_by_empty i ps)

module _ (rest : ℕ → List (List ℕ)) (n : ℕ) where
  firsts-empty : (c : ℕ) → sum_by (one_if_same []) (firsts rest n c) ≡ 0
  firsts-empty zero = refl
  firsts-empty (suc c) = omega (
    arith,
    sum_by-append (one_if_same []) (map (λ q. (n - c) ∷ q) (rest c)) (firsts rest n c),
    map-sum_by_empty (n - c) (rest c),
    firsts-empty c,
  )

  -- Of the first parts that are left, each comes once.
  firsts-sum_by :
      (x c : ℕ) (p : List ℕ)
      → c ≤ n + 1
      → sum_by (one_if_same (x ∷ p)) (firsts rest n c)
        ≡ (if leb x n && ltb (n - x) c then sum_by (one_if_same p) (rest (n - x)) else 0)
  firsts-sum_by x zero p le = ground arith
  firsts-sum_by x (suc c) p le =
      let split =
        sum_by-append (one_if_same (x ∷ p)) (map (λ q. (n - c) ∷ q) (rest c)) (firsts rest n c) in
      let here = map-sum_by x (n - c) p (rest c) in
      let later = firsts-sum_by x c p (omega arith) in
      elim (Bool-cases (nat_beq x (n - c))) [
        | inl t ↦
            let left : n - x ≡ c = ground arith in
            let now : leb x n && ltb (n - x) (suc c) ≡ true = ground arith in
            let gone : leb x n && ltb (n - x) c ≡ false = ground arith in
            rw (now, left) (omega (arith, split, rw t at here, rw gone at later))
        | inr f ↦
            let same : (leb x n && ltb (n - x) (suc c)) ≡ (leb x n && ltb (n - x) c) =
              ground arith in
            rw same (omega (arith, split, rw f at here, later))
      ]

-- `generate_partitions(n, k)`, for k not 0, lists every way to split n into k parts exactly once, and
-- nothing else.
pub generate_partitions-once :
    (n k : ℕ) (p : List ℕ)
    → 0 < k
    → sum_by (one_if_same p) (generate_partitions n k)
      ≡ (if nat_beq (length p) k && nat_beq (total p) n then 1 else 0)
unfolding generate_partitions
generate_partitions-once n zero p pos = absurd (omega arith)
generate_partitions-once n (suc zero) [] pos = ground arith
generate_partitions-once n (suc zero) (x ∷ []) pos = ground arith
generate_partitions-once n (suc zero) (x ∷ y ∷ p) pos = ground arith
generate_partitions-once n (suc (suc k)) [] pos =
    ground (arith, firsts-empty (λ r. generate_partitions r (suc k)) n (n + 1))
generate_partitions-once n (suc (suc k)) (x ∷ p) pos = ground (
  arith,
  firsts-sum_by (λ r. generate_partitions r (suc k)) n x (n + 1) p (omega arith),
  generate_partitions-once (n - x) (suc k) p (omega arith),
)
