-- ===== src/Simulator/Examples/Analysis.antt =====
-- model_analyzer.py: a small model, and the theorem applied to it.
use open_tela.Prelude.{◌+◌, ◌*◌, ◌≡◌, refl, Option, none, some, arith}
use open_tela.Simulator.Memory.Sizes.{get_weights_memory}
use open_tela.Simulator.Analyzer.Layers.{
  LlamaParams, Setting, get_linear_layers, linear_layer, linear_layers, block_size_r,
  fused_attention, pointwise, stage_layers, lm_head,
}
use open_tela.Simulator.Analyzer.Totals.{
  Hardware, StageResult, no_total, max_ops, memory_access, roofline_bound, inference_time,
  add_layer, add_layers, tmp_act, body_total, with_head, divisors_fine, analyze,
}
use open_tela.Simulator.Analyzer.Weights.{planner_config, analyze-get_weights_memory}

abbrev hardware : Hardware
hardware = record { bandwidth = 100; int8 = 2000; fp16 = 1000; onchip_buffer = 64 }

abbrev model : LlamaParams
model = record {
  hidden = 4;
  attention_heads = 2;
  key_value_heads = 1;
  hidden_layers = 2;
  intermediate = 3;
  vocab = 5;
}

abbrev setting : Setting
setting = record { seqlen = 2; batchsize = 1; w_bit = 16; a_bit = 16; kv_bit = 16; tp_size = 1 }

abbrev nothing : StageResult
nothing = record {
  total = no_total;
  memory_consumption = 0;
  memory_consumption_weight = 0;
  memory_consumption_kv_cache = 0;
  memory_consumption_tmp_act = 0;
}

abbrev results_or : Option (StageResult × StageResult) → StageResult × StageResult
results_or none = (nothing, nothing)
results_or (some r) = r

abbrev results : StageResult × StageResult
results = results_or (analyze hardware model setting)

-- Two layers of 4 * 4 + 4 * 2 + 4 * 2 + 4 * 4 + 3 * (4 * 3) weights, and the head.
analyze_test : ((results.1).total.costs.load_weight ≡ (2 * 84 + 20) * 16)
unfolding get_linear_layers linear_layer linear_layers block_size_r fused_attention pointwise
    stage_layers lm_head max_ops memory_access roofline_bound inference_time add_layer add_layers
    tmp_act body_total with_head divisors_fine analyze
analyze_test = refl

analyze-get_weights_memory_example :
    (results.1).total.costs.load_weight + 4 * 5 * 16
    ≡ get_weights_memory (planner_config model setting 100 4)
unfolding get_linear_layers linear_layer linear_layers block_size_r fused_attention pointwise
    stage_layers lm_head max_ops memory_access roofline_bound inference_time add_layer add_layers
    tmp_act body_total with_head divisors_fine analyze
analyze-get_weights_memory_example =
    analyze-get_weights_memory hardware model setting 2 100 4 results.0 results.1 (omega arith) refl
      refl refl
