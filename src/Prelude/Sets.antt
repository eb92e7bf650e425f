-- ===== src/Prelude/Sets.antt =====
-- Python's `set`, as a list in which no value stands twice.
use open_tela.Prelude.Tests.{if◌then◌else◌, Bool-cases, Option-cases}
use open_tela.Prelude.Lists.{sum_by}
use open_tela.Prelude.Equality.{Eq, ◌==◌, ==_cases}
use Prim.Native.Nat.{ℕ, ◌+◌, ◌≤◌}
use mathlib.Core.Path.{◌≡◌}
use mathlib.Core.Logic.{inl, inr}
use mathlib.Core.Bool.{Bool, true, false}
use mathlib.Core.Option.{Option, none, some}
use mathlib.Core.List.{List, [], ◌∷◌}
use native.Mathlib.Omega.{arith}

abbrev behind {ℓ} : {A : Type ℓ} → A → Option (List A) → Option (List A)
behind x none = none
behind x (some xs) = some (x ∷ xs)

module _ {ℓ} {A : Type ℓ} ⦃e : Eq A⦄ where
  -- `a in s`
  unfoldable pub contains : A → List A → Bool
  contains a [] = false
  contains a (x ∷ xs) = if x == a then true else contains a xs

  -- `s.add(a)`
  unfoldable pub add : A → List A → List A
  add a xs = if contains a xs then xs else a ∷ xs

  -- `s.remove(a)`; `none` is the KeyError.
  unfoldable pub remove : A → List A → Option (List A)
  remove a [] = none
  remove a (x ∷ xs) = if x == a then some xs else behind x (remove a xs)

  -- 1 at `a`, 0 elsewhere.
  abbrev pub one_at : A → A → ℕ
  one_at a x = if x == a then 1 else 0

  pub contains-count : (a : A) (xs : List A) → contains a xs ≡ true → 1 ≤ sum_by (one_at a) xs
  unfolding contains
  contains-count a [] h = cc
  contains-count a (x ∷ xs) h = ground (arith, contains-count a xs)

  pub sum_by-remove :
      (f : A → ℕ) (a : A) (xs rest : List A)
      → remove a xs ≡ some rest
      → sum_by f rest + f a ≡ sum_by f xs
  unfolding remove
  sum_by-remove f a [] rest h = cc
  sum_by-remove f a (x ∷ xs) rest h = elim (==_cases x a) [
    | inl (t, p) ↦ let same : rest ≡ xs = ground arith in rw (same, p) (omega arith)
    | inr (t, p) ↦ elim (Option-cases (remove a xs)) [
      | inl n ↦ absurd (ground arith)
      | inr (left, found) ↦
          let same : rest ≡ x ∷ left = ground arith in
          rw same (omega (arith, sum_by-remove f a xs left found))
    ]
  ]

  pub remove-some :
      (a : A) (xs : List A) → 1 ≤ sum_by (one_at a) xs → (rest : List A) × (remove a xs ≡ some rest)
  unfolding remove
  remove-some a [] h = elim h [ ]
  remove-some a (x ∷ xs) h = elim (Bool-cases (x == a)) [
    | inl t ↦ (xs, rw t)
    | inr t ↦ let (rest, found) = remove-some a xs (ground arith) in (x ∷ rest, rw t (rw found))
  ]

  pub sum_by-add :
      (f : A → ℕ) (a : A) (xs : List A)
      → contains a xs ≡ false
      → sum_by f (add a xs) ≡ f a + sum_by f xs
  unfolding add
  sum_by-add f a xs h = rw h
