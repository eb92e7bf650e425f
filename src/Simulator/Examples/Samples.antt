-- ===== src/Simulator/Examples/Samples.antt =====
-- Small inputs for the tests: a planner with 47 blocks of 4 tokens, whose object has the attributes
-- that the constructor leaves out, and requests.
use open_tela.Prelude.{[], ◌∷◌, none, some}
use open_tela.Simulator.Request.{GenerationRequest, pending}
use open_tela.Simulator.Memory.Sizes.{PlannerConfig}
use open_tela.Simulator.Memory.Planner.{MemoryPlanner}

abbrev pub small_config : PlannerConfig
small_config = record {
  params = record {
    hidden_size = some 2;
    num_attention_heads = some 1;
    num_key_value_heads = none;
    num_hidden_layers = some 1;
    intermediate_size = some 2;
    vocab_size = some 2;
  };
  config = record {
    hidden_size_of = none;
    num_attention_heads_of = none;
    num_key_value_heads_of = none;
    head_dim_of = none;
    num_hidden_layers_of = none;
    intermediate_size_of = none;
    vocab_size_of = none;
  };
  vmemory = 100;
  w_bit = 1;
  kv_bit = 1;
  block_size = 4;
  tp_size = some 1;
  block_memory_size_per_shard = some 16;
}

-- As many blocks as `get_max_num_blocks` has for this object.
abbrev pub planner : MemoryPlanner
planner = record {
  config = small_config;
  max_num_blocks = 47;
  allocated_blocks = 0;
  allocation_map = [];
}

-- A prompt of 6 tokens, for which 3 are to be generated.
abbrev pub request : GenerationRequest
request = record {
  req_id = "a";
  model = "m";
  input_length = 6;
  output_length = 3;
  arrive_at = 0;
  status = pending;
  prefill_time = none;
  generated_tokens = 0;
  prefill_finished_at = none;
  generation_finished_at = none;
}

abbrev pub held : MemoryPlanner
held = record planner { allocated_blocks = 2; allocation_map = ("a", 2) ∷ [] }

-- The request when its tokens have filled the two blocks and one more.
abbrev pub long_request : GenerationRequest
long_request = record request { generated_tokens = 9; output_length = 20 }

abbrev pub longer : MemoryPlanner
longer = record planner { allocated_blocks = 3; allocation_map = ("a", 3) ∷ [] }
