-- ===== src/Simulator/Config/Normal.antt =====
-- config.py: what the parallel settings are normalized to.
use mathlib.Core.Path.{subst}
use open_tela.Prelude.{◌≡◌, refl, ap, Option, some, none, arith}
use open_tela.Simulator.Config.{
  ℤ, pos, negsuc, ParallelConfig, ParallelArgument, absent, config, size, sizes, other,
  normalize_parallel_config, with_defaults, at_least_one, IsPositive,
}

at_least_one-IsPositive : (n : ℤ) → IsPositive (at_least_one n)
unfolding at_least_one
at_least_one-IsPositive (pos n) = omega arith
at_least_one-IsPositive (negsuc n) = omega arith

at_least_one_positive : (n : ℤ) → IsPositive n → at_least_one n ≡ n
unfolding at_least_one
at_least_one_positive (pos n) h = ap pos (omega arith)
at_least_one_positive (negsuc n) h = absurd h

abbrev Positive : Option ParallelConfig → Type 0
Positive none = Unit
Positive (some c) = IsPositive c.tensor_parallel_size × IsPositive c.pipeline_parallel_size

normalize-Positive : (a : ParallelArgument) → Positive (normalize_parallel_config a)
unfolding normalize_parallel_config with_defaults
normalize-Positive absent = (omega arith, omega arith)
normalize-Positive (config c) = (at_least_one-IsPositive _, at_least_one-IsPositive _)
normalize-Positive (size n) = (at_least_one-IsPositive n, omega arith)
normalize-Positive (sizes tp pp) = (at_least_one-IsPositive _, at_least_one-IsPositive _)
normalize-Positive other = tt

-- Where the settings are accepted, both sizes of the result are at least 1, and normalizing the
-- result again changes nothing.
pub normalize_parallel_config-IsPositive :
    (a : ParallelArgument) (c : ParallelConfig)
    → normalize_parallel_config a ≡ some c
    → IsPositive c.tensor_parallel_size
      × IsPositive c.pipeline_parallel_size
      × (normalize_parallel_config (config c) ≡ some c)
unfolding normalize_parallel_config with_defaults
normalize_parallel_config-IsPositive a c h =
    let (tp, pp) = subst Positive h (normalize-Positive a) in
    (
      tp,
      pp,
      rw
          (
            at_least_one_positive c.tensor_parallel_size tp,
            at_least_one_positive c.pipeline_parallel_size pp,
          )
          refl,
    )
