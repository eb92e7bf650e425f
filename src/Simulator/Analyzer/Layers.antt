-- ===== src/Simulator/Analyzer/Layers.antt =====
-- model_analyzer.py, llama.py: the layers of the two stages.
use open_tela.Prelude.{
  ℕ, ◌+◌, ◌*◌, ◌/◌, ◌%◌, min, Bool, ◌&&◌, ◌||◌, List, [], ◌∷◌, ◌++◌, Option, none, some, String,
  string_eq, ◌==◌, ceil_div, nat_beq, ltb, if◌then◌else◌,
}

-- The attributes of the model that llama.py reads.
pub record LlamaParams : Type 0 where
  pub hidden : ℕ
  pub attention_heads : ℕ
  pub key_value_heads : ℕ
  pub hidden_layers : ℕ
  pub intermediate : ℕ
  pub vocab : ℕ

-- The arguments of `analyze`.
pub record Setting : Type 0 where
  pub seqlen : ℕ
  pub batchsize : ℕ
  pub w_bit : ℕ
  pub a_bit : ℕ
  pub kv_bit : ℕ
  pub tp_size : ℕ

-- What `_analyze_to_results` is told of a layer.
pub record LayerCost : Type 0 where
  pub ops : ℕ
  pub load_weight : ℕ
  pub load_act : ℕ
  pub store_act : ℕ
  pub load_kv_cache : ℕ
  pub store_kv_cache : ℕ

pub record Layer : Type 0 where
  pub layer_name : String
  pub cost : LayerCost

-- The size of the rows of `k_proj` and `v_proj` on one shard.
abbrev pub kv_rows : LlamaParams → ℕ → ℕ
kv_rows m tp = m.hidden * m.key_value_heads / m.attention_heads / tp

pub record Linear : Type 0 where
  pub linear_name : String
  pub ic : ℕ
  pub oc : ℕ

abbrev pub divides : ℕ → ℕ → Bool
divides tp n = nat_beq (n % tp) 0

-- `get_linear_layers`; `none` is a failed assertion.
unfoldable pub get_linear_layers : LlamaParams → ℕ → Option (List Linear)
get_linear_layers m tp =
    let layers =
      record { linear_name = "q_proj"; ic = m.hidden; oc = m.hidden / tp }
      ∷ record { linear_name = "k_proj"; ic = m.hidden; oc = kv_rows m tp }
      ∷ record { linear_name = "v_proj"; ic = m.hidden; oc = kv_rows m tp }
      ∷ record { linear_name = "out_proj"; ic = m.hidden / tp; oc = m.hidden }
      ∷ record { linear_name = "gate_proj"; ic = m.hidden; oc = m.intermediate / tp }
      ∷ record { linear_name = "up_proj"; ic = m.hidden; oc = m.intermediate / tp }
      ∷ record { linear_name = "down_proj"; ic = m.intermediate / tp; oc = m.hidden }
      ∷ [] in
    if ltb 1 tp
    then (if divides tp m.hidden && divides tp m.intermediate && divides tp m.key_value_heads
        then some layers
        else none)
    else some layers

abbrev pub is_kv_proj : String → Bool
is_kv_proj name = name == "k_proj" || name == "v_proj"

-- A linear layer for `tokens` tokens of each sequence: 1 in a decode step, all in a prefill.
unfoldable pub linear_layer : Setting → ℕ → Linear → Layer
linear_layer s tokens l =
    let rows = s.batchsize * tokens in
    record {
      layer_name = l.linear_name;
      cost = record {
        ops = l.ic * l.oc * rows * 2;
        load_weight = l.ic * l.oc * s.w_bit;
        load_act = l.ic * rows * s.a_bit;
        store_act = if is_kv_proj l.linear_name then 0 else l.oc * rows * s.a_bit;
        load_kv_cache = 0;
        store_kv_cache = if is_kv_proj l.linear_name then l.oc * rows * s.kv_bit else 0;
      };
    }

unfoldable pub linear_layers : Setting → ℕ → List Linear → List Layer
linear_layers s tokens [] = []
linear_layers s tokens (l ∷ ls) = linear_layer s tokens l ∷ linear_layers s tokens ls

abbrev pub head_size : LlamaParams → ℕ
head_size m = m.hidden / m.attention_heads

-- The rows of a block that fit into the buffer on the chip, which has `onchip` bytes.
unfoldable pub block_size_r : LlamaParams → Setting → ℕ → ℕ
block_size_r m s onchip = min (ceil_div (onchip * 8) (s.kv_bit * head_size m)) (head_size m)

-- The attention of `tokens` tokens against all of the sequence.
unfoldable pub fused_attention : LlamaParams → Setting → ℕ → ℕ → Layer
fused_attention m s onchip tokens =
    let pairs = tokens * s.seqlen in
    let matmul = pairs * head_size m * m.attention_heads * s.batchsize * 2 in
    let softmax = s.batchsize * m.attention_heads * pairs * 5 in
    let n_blocks_r = ceil_div tokens (block_size_r m s onchip) in
    let q_numel = tokens * head_size m * s.batchsize * m.attention_heads * s.a_bit in
    let o_numel = pairs * s.batchsize * m.attention_heads * s.a_bit in
    record {
      layer_name = "fused_attention";
      cost = record {
        ops = matmul + matmul + softmax;
        load_weight = 0;
        load_act = q_numel;
        store_act = o_numel * 2;
        load_kv_cache =
            n_blocks_r * s.seqlen * head_size m * s.batchsize * m.key_value_heads * s.kv_bit * 2;
        store_kv_cache = 0;
      };
    }

-- A layer that works on each value: `ops` operations and `loads` loads for one.
unfoldable pub pointwise : LlamaParams → Setting → ℕ → String → ℕ → ℕ → Layer
pointwise m s tokens name ops loads =
    let values = s.batchsize * m.hidden * tokens in
    record {
      layer_name = name;
      cost = record {
        ops = values * ops;
        load_weight = 0;
        load_act = values * s.a_bit * loads;
        store_act = values * s.a_bit;
        load_kv_cache = 0;
        store_kv_cache = 0;
      };
    }

-- All layers of a stage, in the order of the source.
unfoldable pub stage_layers : LlamaParams → Setting → ℕ → ℕ → List Linear → List Layer
stage_layers m s onchip tokens linears =
    linear_layers s tokens linears
    ++ fused_attention m s onchip tokens
      ∷ pointwise m s tokens "attn_norm" 7 1
      ∷ pointwise m s tokens "mlp_norm" 7 1
      ∷ pointwise m s tokens "attn_add" 1 1
      ∷ pointwise m s tokens "mlp_add" 1 1
      ∷ pointwise m s tokens "mlp_act" 2 2
      ∷ []

-- `post_process`: the same layer for both stages.
unfoldable pub lm_head : LlamaParams → Setting → Layer
lm_head m s = record {
  layer_name = "lm_head";
  cost = record {
    ops = s.batchsize * m.hidden * m.vocab;
    load_weight = m.hidden * m.vocab * s.w_bit;
    load_act = m.hidden * s.a_bit;
    store_act = m.vocab * s.a_bit;
    load_kv_cache = 0;
    store_kv_cache = 0;
  };
}
