-- ===== src/Simulator/Config.antt =====
-- contrib/serving-simulator/simulator/core/config.py: the parallel settings of an engine.
pub mod Normal
use open_tela.Prelude.{ℕ, ◌≤◌, max, Option, some, none}

-- A Python `int`: `negsuc n` is -(n + 1).
pub data ℤ : Type 0 where
  pos : ℕ → ℤ
  negsuc : ℕ → ℤ

pub record ParallelConfig : Type 0 where
  pub tensor_parallel_size : ℤ
  pub pipeline_parallel_size : ℤ

-- What a caller may pass; `other` is a value of any further type.
pub data ParallelArgument : Type 0 where
  absent : ParallelArgument
  config : ParallelConfig → ParallelArgument
  size : ℤ → ParallelArgument
  sizes : (tp pp : Option ℤ) → ParallelArgument
  other : ParallelArgument

-- `max(1, n)`
unfoldable pub at_least_one : ℤ → ℤ
at_least_one (pos n) = pos (max 1 n)
at_least_one (negsuc n) = pos 1

unfoldable pub with_defaults : ParallelConfig → ParallelConfig
unfolding at_least_one
with_defaults c = record {
  tensor_parallel_size = at_least_one c.tensor_parallel_size;
  pipeline_parallel_size = at_least_one c.pipeline_parallel_size;
}

abbrev size_or_one : Option ℤ → ℤ
size_or_one none = pos 1
size_or_one (some n) = n

-- `none` is the TypeError.
unfoldable pub normalize_parallel_config : ParallelArgument → Option ParallelConfig
unfolding with_defaults at_least_one
normalize_parallel_config absent =
    some (record { tensor_parallel_size = pos 1; pipeline_parallel_size = pos 1 })
normalize_parallel_config (config c) = some (with_defaults c)
normalize_parallel_config (size n) =
    some (record { tensor_parallel_size = at_least_one n; pipeline_parallel_size = pos 1 })
normalize_parallel_config (sizes tp pp) = some (record {
  tensor_parallel_size = at_least_one (size_or_one tp);
  pipeline_parallel_size = at_least_one (size_or_one pp);
})
normalize_parallel_config other = none

abbrev pub IsPositive : ℤ → Type 0
IsPositive (pos n) = 1 ≤ n
IsPositive (negsuc n) = ⊥
