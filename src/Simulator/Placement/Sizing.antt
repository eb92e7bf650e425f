-- ===== src/Simulator/Placement/Sizing.antt =====
-- placement.py: the search for the smallest tensor parallel size.
use open_tela.Prelude.{
  ℕ, zero, suc, ◌+◌, ◌≤◌, ◌<◌, ◌≡◌, refl, true, false, Bool-cases, String, ltb, inl, inr, ◌⊎◌,
  arith,
}
use Prim.Native.Nat.{◌^◌}
use native.Mathlib.Nat.{pow-suc, one-le-pow, pow-le-pow_right}
use native.Mathlib.Decide.{dec_le}
use mathlib.Core.Path.{subst}
use open_tela.Simulator.Placement.Fitting.{Analysis, check_fits, first_fit, find_min_tp_size}

-- `r` is the smallest power of two that fits, or `max_tp + 1` if none up to `max_tp` does.
abbrev pub IsLeast : Analysis → String → String → ℕ → ℕ → Type 0
IsLeast a hardware model max_tp r =
    ((i : ℕ) → 2 ^ i ≤ max_tp → 2 ^ i < r → check_fits a hardware model (2 ^ i) ≡ false)
    × ((r ≡ max_tp + 1)
        ⊎ (r ≤ max_tp) × (check_fits a hardware model r ≡ true) × ((i : ℕ) × (r ≡ 2 ^ i)))

module _ (a : Analysis) (hardware model : String) (max_tp : ℕ) where
  -- No power before the j-th fits.
  abbrev NoneBefore : ℕ → Type 0
  NoneBefore j = (i : ℕ) → i < j → check_fits a hardware model (2 ^ i) ≡ false

  pow-lt : (i j : ℕ) → 2 ^ i < 2 ^ j → i < j
  pow-lt i j h = elim (dec_le j i) [
    | yes le ↦ absurd (omega (arith, pow-le-pow_right {n = 2} (omega arith) le))
    | no above ↦ omega arith
  ]

  none_up_to :
      (j : ℕ) → max_tp < 2 ^ j → NoneBefore j → IsLeast a hardware model max_tp (max_tp + 1)
  none_up_to j over none_before = (λ i le _. none_before i (pow-lt i j (omega arith)), inl refl)

  first_fit-IsLeast :
      (fuel j : ℕ)
      → max_tp < 2 ^ j + fuel
      → NoneBefore j
      → IsLeast a hardware model max_tp (first_fit a fuel hardware model max_tp (2 ^ j))
  unfolding first_fit
  first_fit-IsLeast zero j enough none_before = none_up_to j (omega arith) none_before
  first_fit-IsLeast (suc fuel) j enough none_before = elim (Bool-cases (ltb max_tp (2 ^ j))) [
    | inl over ↦ rw over (none_up_to j (ground arith) none_before)
    | inr within ↦ elim (Bool-cases (check_fits a hardware model (2 ^ j))) [
      | inl fits ↦
          rw (within, fits)
            (λ i _ lt. none_before i (pow-lt i j lt), inr (ground arith, fits, (j, refl)))
      | inr misses ↦
          let next : NoneBefore (suc j) = λ i lt. elim (dec_le j i) [
            | yes le ↦
                let same : j ≡ i = omega arith in
                subst (λ k. check_fits a hardware model (2 ^ k) ≡ false) same misses
            | no above ↦ none_before i (omega arith)
          ] in
          rw (within, misses)
            (subst (λ t. IsLeast a hardware model max_tp (first_fit a fuel hardware model max_tp t))
              (pow-suc 2 j)
              (first_fit-IsLeast fuel (suc j)
                (omega (arith, pow-suc 2 j, one-le-pow j 2 (omega arith))) next))
    ]
  ]

-- On a node with at least one GPU, `_find_min_tp_size` gives a power of two that fits and is no larger than
-- the number of GPUs, such that no smaller power of two fits; or the number of GPUs and one, and
-- then no power of two up to the number of GPUs fits.
pub find_min_tp_size-IsLeast :
    (a : Analysis) (hardware model : String) (max_tp : ℕ)
    → 0 < max_tp
    → IsLeast a hardware model max_tp (find_min_tp_size a hardware model max_tp)
unfolding find_min_tp_size
find_min_tp_size-IsLeast a hardware model zero pos = absurd (omega arith)
find_min_tp_size-IsLeast a hardware model (suc n) pos =
    first_fit-IsLeast a hardware model (suc n) (suc n) 0 (omega arith)
      (λ i lt. absurd (omega arith))
