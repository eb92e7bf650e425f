-- ===== src/Simulator/Memory/Sizes.antt =====
-- memory.py: what the planner reads from the model, and the sizes that it derives.
use open_tela.Prelude.{
  Result, ok, raised, ◌>>=◌, ℕ, ◌+◌, ◌-◌, ◌*◌, ◌/◌, max, Option, none, some, leb, if◌then◌else◌,
  ◌==◌, nat_eq,
}
use open_tela.Prelude.Dict.{get_or}

-- The model object that `AutoConfig` loads: `none` is an attribute that it lacks.
pub record ModelParams : Type 0 where
  pub hidden_size : Option ℕ
  pub num_attention_heads : Option ℕ
  pub num_key_value_heads : Option ℕ
  pub num_hidden_layers : Option ℕ
  pub intermediate_size : Option ℕ
  pub vocab_size : Option ℕ

-- The configuration module of a model: `none` is a function that it lacks.
pub record ModelConfig : Type 0 where
  pub hidden_size_of : Option (ModelParams → ℕ)
  pub num_attention_heads_of : Option (ModelParams → ℕ)
  pub num_key_value_heads_of : Option (ModelParams → ℕ)
  pub head_dim_of : Option (ModelParams → ℕ)
  pub num_hidden_layers_of : Option (ModelParams → ℕ)
  pub intermediate_size_of : Option (ModelParams → ℕ)
  pub vocab_size_of : Option (ModelParams → ℕ)

-- What the planner raises: its two assertions, and what its constructor and its attributes raise.
pub data MemoryError : Type 0 where
  exceeding_memory_limit negative_allocated_blocks : MemoryError
  attribute_error value_error type_error : MemoryError

-- The last two are the attributes `_tp_size` and `_block_memory_size_per_shard`, the size in bits:
-- `none` is an attribute that the object lacks. The module reads both and assigns neither.
pub record PlannerConfig : Type 0 where
  pub params : ModelParams
  pub config : ModelConfig
  pub vmemory : ℕ  -- bytes of one GPU
  pub w_bit : ℕ
  pub kv_bit : ℕ
  pub block_size : ℕ  -- tokens
  pub tp_size : Option ℕ
  pub block_memory_size_per_shard : Option ℕ

-- `if hasattr(config, name): return config.name(params)`, else the default.
abbrev ask : Option (ModelParams → ℕ) → ModelParams → ℕ → ℕ
ask none p d = d
ask (some f) p d = f p

module _ (c : PlannerConfig) where
  open c use {params, config, vmemory, w_bit, tp_size, block_memory_size_per_shard}

  unfoldable pub hidden_size : ℕ
  hidden_size = ask config.hidden_size_of params (get_or 0 params.hidden_size)

  unfoldable pub num_attention_heads : ℕ
  num_attention_heads =
      ask config.num_attention_heads_of params (get_or 1 params.num_attention_heads)

  unfoldable pub num_key_value_heads : ℕ
  unfolding num_attention_heads
  num_key_value_heads =
      ask config.num_key_value_heads_of params
        (get_or num_attention_heads params.num_key_value_heads)

  unfoldable pub head_dim : ℕ
  unfolding num_attention_heads hidden_size
  head_dim = ask config.head_dim_of params (hidden_size / max 1 num_attention_heads)

  unfoldable pub num_hidden_layers : ℕ
  num_hidden_layers = ask config.num_hidden_layers_of params (get_or 1 params.num_hidden_layers)

  unfoldable pub intermediate_size : ℕ
  unfolding hidden_size
  intermediate_size =
      ask config.intermediate_size_of params (get_or (hidden_size * 4) params.intermediate_size)

  unfoldable pub vocab_size : ℕ
  vocab_size = ask config.vocab_size_of params (get_or 0 params.vocab_size)

  -- In bits, for the whole model.
  unfoldable pub get_weights_memory : ℕ
  unfolding hidden_size num_attention_heads num_key_value_heads head_dim num_hidden_layers
      intermediate_size vocab_size
  get_weights_memory =
      let mlp_weights = 3 * hidden_size * intermediate_size * w_bit in
      let q_weights = hidden_size * num_attention_heads * head_dim in
      let kv_weights = 2 * hidden_size * head_dim * num_key_value_heads in
      let o_weights = hidden_size * num_attention_heads * head_dim in
      let self_attn_weights = (q_weights + kv_weights + o_weights) * w_bit in
      let lm_head_weights = hidden_size * vocab_size * w_bit in
      let embedding_weights = hidden_size * vocab_size * w_bit in
      (mlp_weights + self_attn_weights) * num_hidden_layers + lm_head_weights + embedding_weights

  -- Sizes per shard are counted in bits times this number, so that they are whole.
  unfoldable pub shards : ℕ
  shards = elim tp_size [ none ↦ 1 | some n ↦ if n == 0 then 1 else n ]

  -- The weights of one shard, in that unit: `self._tp_size` is read first.
  unfoldable pub get_weights_memory_per_shard : Result MemoryError ℕ
  get_weights_memory_per_shard = elim tp_size [
    | none ↦ raised attribute_error
    | some n ↦ ok get_weights_memory
  ]

  -- The memory of one shard, in that unit.
  unfoldable pub shard_memory : ℕ
  unfolding shards
  shard_memory = vmemory * 8 * shards

  -- What follows the reading of `_block_memory_size_per_shard`.
  unfoldable pub blocks_of_size : Option ℕ → Result MemoryError ℕ
  blocks_of_size none = raised attribute_error
  blocks_of_size (some size) =
      let available = shard_memory - get_weights_memory in
      if size == 0 then ok 0 else if leb available 0 then ok 0 else ok (available / (size * shards))

  unfoldable pub get_max_num_blocks : Result MemoryError ℕ
  unfolding get_weights_memory_per_shard blocks_of_size
  get_max_num_blocks = get_weights_memory_per_shard >>= λ weights.
      if leb shard_memory weights then ok 0 else blocks_of_size block_memory_size_per_shard
