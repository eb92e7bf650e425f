-- ===== src/Prelude/Lists.antt =====
-- Lists measured and indexed by native numbers, under the library's names.
use Prim.Native.Nat.{ℕ, zero, suc, ◌+◌, ◌≤◌, ◌<◌}
use mathlib.Core.Path.{◌≡◌, refl, ap}
use mathlib.Core.List.{List, [], ◌∷◌, ◌++◌}
use mathlib.Core.Option.{Option, none, some}
use native.Mathlib.Omega.{arith}
use open_tela.Prelude.Tests.{if◌then◌else◌, nat_beq}

module _ {ℓ} {A : Type ℓ} where
  abbrev pub length : List A → ℕ
  length [] = 0
  length (x ∷ xs) = suc (length xs)

  abbrev pub get_elem? : List A → ℕ → Option A
  get_elem? [] i = none
  get_elem? (x ∷ xs) zero = some x
  get_elem? (x ∷ xs) (suc i) = get_elem? xs i

  abbrev pub take : ℕ → List A → List A
  take zero xs = []
  take (suc n) [] = []
  take (suc n) (x ∷ xs) = x ∷ take n xs

  abbrev pub drop : ℕ → List A → List A
  drop zero xs = xs
  drop (suc n) [] = []
  drop (suc n) (x ∷ xs) = drop n xs

  pub length-append : (xs ys : List A) → length (xs ++ ys) ≡ length xs + length ys
  length-append [] ys = omega arith
  length-append (x ∷ xs) ys = omega (arith, length-append xs ys)

  pub length-take-le : (n : ℕ) (xs : List A) → length (take n xs) ≤ n
  length-take-le zero xs = omega arith
  length-take-le (suc n) [] = omega arith
  length-take-le (suc n) (x ∷ xs) = omega (arith, length-take-le n xs)

  pub length-take_all : (n : ℕ) (xs : List A) → length xs ≤ n → take n xs ≡ xs
  length-take_all zero [] h = refl
  length-take_all zero (x ∷ xs) h = absurd (omega arith)
  length-take_all (suc n) [] h = refl
  length-take_all (suc n) (x ∷ xs) h = ap (λ t. x ∷ t) (length-take_all n xs (omega arith))

-- `xs[i]`, with a value for the indices that stand outside.
module _ {ℓ} {A : Type ℓ} (d : A) where
  abbrev pub item : List A → ℕ → A
  item [] i = d
  item (x ∷ xs) zero = x
  item (x ∷ xs) (suc i) = item xs i

module _ {ℓ} {A : Type ℓ} where
  -- `xs[i] = v`; outside it changes nothing.
  abbrev pub set : List A → ℕ → A → List A
  set [] i v = []
  set (x ∷ xs) zero v = v ∷ xs
  set (x ∷ xs) (suc i) v = x ∷ set xs i v

  abbrev pub sum_by : (A → ℕ) → List A → ℕ
  sum_by f [] = 0
  sum_by f (x ∷ xs) = f x + sum_by f xs

  pub length-set : (xs : List A) (i : ℕ) (v : A) → length (set xs i v) ≡ length xs
  length-set [] i v = refl
  length-set (x ∷ xs) zero v = refl
  length-set (x ∷ xs) (suc i) v = ap suc (length-set xs i v)

  pub item-set :
      (d : A) (xs : List A) (i j : ℕ) (v : A)
      → i < length xs
      → item d (set xs i v) j ≡ (if nat_beq i j then v else item d xs j)
  item-set d [] i j v h = elim h [ ]
  item-set d (x ∷ xs) zero zero v h = refl
  item-set d (x ∷ xs) zero (suc j) v h = ground arith
  item-set d (x ∷ xs) (suc i) zero v h = ground arith
  item-set d (x ∷ xs) (suc i) (suc j) v h = ground (arith, item-set d xs i j v)

  pub sum_by-set :
      (f : A → ℕ) (d : A) (xs : List A) (i : ℕ) (v : A)
      → i < length xs
      → sum_by f (set xs i v) + f (item d xs i) ≡ sum_by f xs + f v
  sum_by-set f d [] i v h = elim h [ ]
  sum_by-set f d (x ∷ xs) zero v h = omega arith
  sum_by-set f d (x ∷ xs) (suc i) v h = omega (arith, sum_by-set f d xs i v (omega arith))

  pub sum_by-append : (f : A → ℕ) (xs ys : List A) → sum_by f (xs ++ ys) ≡ sum_by f xs + sum_by f ys
  sum_by-append f [] ys = omega arith
  sum_by-append f (x ∷ xs) ys = omega (arith, sum_by-append f xs ys)

  pub item-append :
      (d : A) (xs ys : List A) (i : ℕ) → i < length xs → item d (xs ++ ys) i ≡ item d xs i
  item-append d [] ys i h = elim h [ ]
  item-append d (x ∷ xs) ys zero h = refl
  item-append d (x ∷ xs) ys (suc i) h = item-append d xs ys i (omega arith)

  pub item-append_last : (d : A) (xs : List A) (x : A) → item d (xs ++ x ∷ []) (length xs) ≡ x
  item-append_last d [] x = refl
  item-append_last d (y ∷ xs) x = item-append_last d xs x

  pub sum_by-zero :
      (f : A → ℕ) (d : A) (xs : List A)
      → ((i : ℕ) → i < length xs → f (item d xs i) ≡ 0)
      → sum_by f xs ≡ 0
  sum_by-zero f d [] h = refl
  sum_by-zero f d (x ∷ xs) h =
      omega (arith, h 0 (omega arith), sum_by-zero f d xs (λ i hi. h (suc i) (omega arith)))

  pub item-sum_by_zero :
      (f : A → ℕ) (d : A) (xs : List A) (i : ℕ)
      → sum_by f xs ≡ 0
      → i < length xs
      → f (item d xs i) ≡ 0
  item-sum_by_zero f d [] i h hi = elim hi [ ]
  item-sum_by_zero f d (x ∷ xs) zero h hi = omega arith
  item-sum_by_zero f d (x ∷ xs) (suc i) h hi = item-sum_by_zero f d xs i (omega arith) (omega arith)

  -- The length counts 1 for every value.
  pub length-sum_by : (xs : List A) → length xs ≡ sum_by (λ x. 1) xs
  length-sum_by [] = refl
  length-sum_by (x ∷ xs) = omega (arith, length-sum_by xs)
