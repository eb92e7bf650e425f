-- ===== src/Prelude/Dict.antt =====
-- Python's `dict` in insertion order, as an association list.
use open_tela.Prelude.Tests.{if◌then◌else◌, Bool-cases}
use open_tela.Prelude.Equality.{Eq, ◌==◌, ==_self, ==_cases, beq-false}
use mathlib.Core.Path.{◌≡◌, refl, sym, ◌∙◌}
use mathlib.Core.Logic.{inl, inr}
use mathlib.Core.Bool.{false}
use mathlib.Core.Option.{Option, none, some}
use mathlib.Core.List.{List, [], ◌∷◌}
use native.Mathlib.Omega.{arith}
use Prim.Native.Nat.{◌+◌, ◌≤◌}
use open_tela.Prelude.Lists.{length}

abbrev pub Dict {ℓ κ} : Type ℓ → Type κ → Type (ℓ ⊔ κ)
Dict K V = List (K × V)

abbrev pub get_or {ℓ} : {A : Type ℓ} → A → Option A → A
get_or d none = d
get_or d (some a) = a

module _ {ℓ κ} {K : Type ℓ} {V : Type κ} ⦃e : Eq K⦄ where
  -- `d.get(k)`
  unfoldable pub get : K → Dict K V → Option V
  get k [] = none
  get k ((j, v) ∷ m) = if j == k then some v else get k m

  -- `d[k] = v`
  unfoldable pub put : K → V → Dict K V → Dict K V
  put k v [] = (k, v) ∷ []
  put k v ((j, w) ∷ m) = if j == k then (j, v) ∷ m else (j, w) ∷ put k v m

  -- `d.pop(k, None)`, the dictionary that is left
  unfoldable pub pop : K → Dict K V → Dict K V
  pop k [] = []
  pop k ((j, w) ∷ m) = if j == k then m else (j, w) ∷ pop k m

  -- No key stands twice.
  abbrev pub Unique : Dict K V → Type κ
  Unique [] = Unit
  Unique ((j, w) ∷ m) = (get j m ≡ none) × Unique m

  -- What every key reads after a write.
  pub get-put :
      (k j : K) (v : V) (m : Dict K V) → get j (put k v m) ≡ (if k == j then some v else get j m)
  unfolding get put
  get-put k j v [] = refl
  get-put k j v ((i, w) ∷ m) =
      ground (arith, e.beq_iff k j, e.beq_iff i k, e.beq_iff i j, get-put k j v m)

  pub get-put_self : (k : K) (v : V) (m : Dict K V) → get k (put k v m) ≡ some v
  get-put_self k v m = rw (get-put k k v m) (rw (==_self k))

  pub get-put_ne : (k j : K) (v : V) (m : Dict K V) → (k == j) ≡ false → get j (put k v m) ≡ get j m
  get-put_ne k j v m h = rw (get-put k j v m) (rw h)

  pub get-pop_ne : (k j : K) (m : Dict K V) → (k == j) ≡ false → get j (pop k m) ≡ get j m
  unfolding get pop
  get-pop_ne k j [] h = refl
  get-pop_ne k j ((i, w) ∷ m) h =
      ground (arith, e.beq_iff k j, e.beq_iff i k, e.beq_iff i j, get-pop_ne k j m h)

  pub get-pop-none : (k j : K) (m : Dict K V) → get j m ≡ none → get j (pop k m) ≡ none
  unfolding get pop
  get-pop-none k j [] h = refl
  get-pop-none k j ((i, w) ∷ m) h = ground (arith, e.beq_iff i k, e.beq_iff i j, get-pop-none k j m)

  pub get-pop_self : (k : K) (m : Dict K V) → Unique m → get k (pop k m) ≡ none
  unfolding get pop
  get-pop_self k [] u = refl
  get-pop_self k ((i, w) ∷ m) u = ground (arith, e.beq_iff i k, get-pop_self k m u.1)

  pub put-Unique : (k : K) (v : V) (m : Dict K V) → Unique m → Unique (put k v m)
  unfolding get put
  put-Unique k v [] u = (refl, tt)
  put-Unique k v ((i, w) ∷ m) u = elim (==_cases i k) [
    | inl (h, _) ↦ rw h u
    | inr (h, p) ↦
        rw h (get-put_ne k i v m (beq-false k i (λ q. p (sym q))) ∙ u.0, put-Unique k v m u.1)
  ]

  pub pop-Unique : (k : K) (m : Dict K V) → Unique m → Unique (pop k m)
  unfolding get pop
  pop-Unique k [] u = u
  pop-Unique k ((i, w) ∷ m) u = elim (Bool-cases (i == k)) [
    | inl h ↦ rw h u.1
    | inr h ↦ rw h (get-pop-none k i m u.0, pop-Unique k m u.1)
  ]

  -- A write adds an entry only under a new key.
  pub length-put_new :
      (k : K) (v : V) (m : Dict K V) → get k m ≡ none → length (put k v m) ≡ length m + 1
  unfolding get put
  length-put_new k v [] h = refl
  length-put_new k v ((i, w) ∷ m) h = ground (arith, length-put_new k v m)

  pub length-put-le : (k : K) (v : V) (m : Dict K V) → length (put k v m) ≤ length m + 1
  unfolding put
  length-put-le k v [] = omega arith
  length-put-le k v ((i, w) ∷ m) = ground (arith, length-put-le k v m)

  pub length-pop :
      (k : K) (v : V) (m : Dict K V) → get k m ≡ some v → length (pop k m) + 1 ≡ length m
  unfolding get pop
  length-pop k v [] h = cc
  length-pop k v ((i, w) ∷ m) h = ground (arith, length-pop k v m)
