-- ===== src/Simulator/Analyzer/Weights.antt =====
-- model_analyzer.py, memory.py: the weights of a model, as the analyzer and the planner count them.
use open_tela.Prelude.{
  ℕ, ◌+◌, ◌*◌, ◌/◌, ◌<◌, ◌≡◌, refl, sym, ap, ◌∙◌, Bool-cases, Option-cases, List, Option, none,
  some, sum_by, inl, inr, arith, ltb, ◌&&◌,
}
use mathlib.Core.Path.{subst}
use native.Mathlib.Nat.{div-one, mul-div_cancel_left, mul_assoc}
use open_tela.Prelude.Dict.{get_or}
use open_tela.Simulator.Memory.Sizes.{
  ModelParams, ModelConfig, PlannerConfig, get_weights_memory, hidden_size, num_attention_heads,
  num_key_value_heads, head_dim, num_hidden_layers, intermediate_size, vocab_size,
}
use open_tela.Simulator.Analyzer.Layers.{
  LlamaParams, Setting, Layer, Linear, get_linear_layers, linear_layers, linear_layer, stage_layers,
  fused_attention, pointwise, lm_head, kv_rows,
}
use open_tela.Simulator.Analyzer.Totals.{
  Hardware, Total, StageResult, max_ops, add_layer, inference_time, body_total, with_head,
  finish_analysis, analyze_layers, analyze, both, stage_result, no_total, divisors_fine,
}
use open_tela.Simulator.Analyzer.Sums.{
  some-injective, weight_of, add_time-weight, add_layers-weight,
}

-- The configuration module for Llama models, over the attributes that it reads.
abbrev pub attributes : LlamaParams → ModelParams
attributes m = record {
  hidden_size = some m.hidden;
  num_attention_heads = some m.attention_heads;
  num_key_value_heads = some m.key_value_heads;
  num_hidden_layers = some m.hidden_layers;
  intermediate_size = some m.intermediate;
  vocab_size = some m.vocab;
}

abbrev pub llama : ModelConfig
llama = record {
  hidden_size_of = some (λ p. get_or 0 p.hidden_size);
  num_attention_heads_of = some (λ p. get_or 0 p.num_attention_heads);
  num_key_value_heads_of = some (λ p. get_or 0 p.num_key_value_heads);
  head_dim_of = some (λ p. get_or 0 p.hidden_size / get_or 0 p.num_attention_heads);
  num_hidden_layers_of = some (λ p. get_or 0 p.num_hidden_layers);
  intermediate_size_of = some (λ p. get_or 0 p.intermediate_size);
  vocab_size_of = some (λ p. get_or 0 p.vocab_size);
}

-- What the planner of the same model reads.
abbrev pub planner_config : LlamaParams → Setting → ℕ → ℕ → PlannerConfig
planner_config m s vmemory block_size = record {
  params = attributes m;
  config = llama;
  vmemory = vmemory;
  w_bit = s.w_bit;
  kv_bit = s.kv_bit;
  block_size = block_size;
  tp_size = none;
  block_memory_size_per_shard = none;
}

-- The size of the weights of one transformer layer.
abbrev layer_weights : LlamaParams → ℕ → ℕ
layer_weights m rows =
    m.hidden * m.hidden
    + m.hidden * rows
    + m.hidden * rows
    + m.hidden * m.hidden
    + m.hidden * m.intermediate
    + m.hidden * m.intermediate
    + m.intermediate * m.hidden

stage_layers-weight :
    (m : LlamaParams) (s : Setting) (onchip tokens : ℕ) (ls : List Linear)
    → get_linear_layers m 1 ≡ some ls
    → sum_by weight_of (stage_layers m s onchip tokens ls) ≡ layer_weights m (kv_rows m 1) * s.w_bit
unfolding get_linear_layers stage_layers linear_layers linear_layer fused_attention pointwise
stage_layers-weight m s onchip tokens ls h =
    subst
      (λ (xs : List Linear).
        sum_by weight_of (stage_layers m s onchip tokens xs)
        ≡ layer_weights m (kv_rows m 1) * s.w_bit)
      (some-injective h) (grind (arith, div-one m.hidden, div-one m.intermediate))

module _ {A B : Type 0} where
  both-eq :
      (x : Option A) (y : Option B) (a : A) (b : B)
      → both x y ≡ some (a, b)
      → (x ≡ some a) × (y ≡ some b)
  both-eq (some x) (some y) a b h =
      let same = some-injective h in
      (ap (λ (z : A × B). some (z.0)) same, ap (λ (z : A × B). some (z.1)) same)
  both-eq none y a b h = cc
  both-eq (some x) none a b h = cc

stage_result-eq :
    (layers : List Layer) (prefill : Total) (o : Option Total) (p : StageResult)
    → stage_result layers prefill o ≡ some p
    → o ≡ some p.total
stage_result-eq layers prefill none p h = cc
stage_result-eq layers prefill (some t) p h =
    ap (λ (y : StageResult). some y.total) (some-injective h)

finish-total :
    (h : Hardware) (m : LlamaParams) (s : Setting) (decode prefill : List Layer)
    (x y : Option Total) (d p : StageResult)
    → finish_analysis h m s decode prefill (both x y) ≡ some (d, p)
    → (b : Total) × (y ≡ some b) × (with_head h m s (some b) ≡ some p.total)
finish-total h m s decode prefill (some a) (some b) d p e =
    let (_, second) =
      both-eq (stage_result decode b (with_head h m s (some a)))
        (stage_result prefill b (with_head h m s (some b))) d p e in
    (b, refl, stage_result-eq prefill b (with_head h m s (some b)) p second)
finish-total h m s decode prefill none y d p e = cc
finish-total h m s decode prefill (some a) none d p e = cc

-- The rows of `k_proj` and the size of a head, where the heads divide the hidden size.
head_sizes :
    (m : LlamaParams) (size : ℕ)
    → 0 < m.attention_heads
    → m.hidden ≡ m.attention_heads * size
    → (m.hidden / m.attention_heads ≡ size) × (kv_rows m 1 ≡ size * m.key_value_heads)
head_sizes m size pos h =
    let regroup : m.hidden * m.key_value_heads ≡ m.attention_heads * (size * m.key_value_heads) =
      ap (λ t. t * m.key_value_heads) h ∙ mul_assoc m.attention_heads size m.key_value_heads in
    (
      ap (λ t. t / m.attention_heads) h ∙ mul-div_cancel_left size pos,
      div-one (m.hidden * m.key_value_heads / m.attention_heads)
          ∙ ap (λ t. t / m.attention_heads) regroup
          ∙ mul-div_cancel_left (size * m.key_value_heads) pos,
    )

-- Both counts, for `q` and `out` as matrices of heads and as squares.
same_count :
    (hidden heads size kv inter vocab layers w : ℕ)
    → hidden ≡ heads * size
    → (3 * hidden * inter * w
            + (hidden * heads * size + 2 * hidden * size * kv + hidden * heads * size) * w)
          * layers
        + hidden * vocab * w
        + hidden * vocab * w
      ≡ (hidden * hidden
            + hidden * (size * kv)
            + hidden * (size * kv)
            + hidden * hidden
            + hidden * inter
            + hidden * inter
            + inter * hidden)
          * w
          * layers
        + hidden * vocab * w
        + hidden * vocab * w
same_count hidden heads size kv inter vocab layers w h =
    let square : hidden * heads * size ≡ hidden * hidden =
      mul_assoc hidden heads size ∙ ap (λ t. hidden * t) (sym h) in
    rw square (grind arith)

-- Where a Llama model has attention heads, they divide its hidden size, and its analysis on one GPU
-- returns, the weights that the memory planner of the same model counts are the weights that the
-- prefill loads and the embedding table, which the prefill does not count.
pub analyze-get_weights_memory :
    (h : Hardware) (m : LlamaParams) (s : Setting) (size vmemory block_size : ℕ) (d p : StageResult)
    → 0 < m.attention_heads
    → m.hidden ≡ m.attention_heads * size
    → s.tp_size ≡ 1
    → analyze h m s ≡ some (d, p)
    → p.total.costs.load_weight + m.hidden * m.vocab * s.w_bit
      ≡ get_weights_memory (planner_config m s vmemory block_size)
unfolding analyze body_total with_head add_layer lm_head get_weights_memory hidden_size
    num_attention_heads num_key_value_heads head_dim num_hidden_layers intermediate_size vocab_size
analyze-get_weights_memory h m s size vmemory block_size d p pos even one e =
    elim (Bool-cases (ltb 0 s.seqlen && ltb 0 s.batchsize && divisors_fine h m s)) [
      | inr f ↦ cc (rw f at e)
      | inl t ↦
          let e' : analyze_layers h m s (get_linear_layers m s.tp_size) ≡ some (d, p) = rw t at e in
          elim (Option-cases (get_linear_layers m s.tp_size)) [
            | inl n ↦ cc (rw n at e')
            | inr (ls, found) ↦
                let (b, made, headed) =
                  finish-total h m s (stage_layers m s h.onchip_buffer 1 ls)
                    (stage_layers m s h.onchip_buffer s.seqlen ls) _ _ d p (rw found at e') in
                let body =
                  add_layers-weight h.bandwidth (max_ops h s) m.hidden_layers
                    (stage_layers m s h.onchip_buffer s.seqlen ls) no_total b made in
                let last =
                  add_time-weight h.bandwidth (max_ops h s) 1 (lm_head m s)
                    (inference_time h.bandwidth (max_ops h s) (lm_head m s).cost) b p.total
                    headed in
                let found' = subst (λ t. get_linear_layers m t ≡ some ls) one found in
                let weights = stage_layers-weight m s h.onchip_buffer s.seqlen ls found' in
                let (whole, rows) = head_sizes m size pos even in
                let counted = weights ∙ ap (λ r. layer_weights m r * s.w_bit) rows in
                let whole_total : p.total.costs.load_weight
                    ≡ layer_weights m (size * m.key_value_heads) * s.w_bit * m.hidden_layers
                      + m.hidden * m.vocab * s.w_bit =
                  omega (arith, last, body, ap (λ t. t * m.hidden_layers) counted) in
                rw whole (
                  ap (λ t. t + m.hidden * m.vocab * s.w_bit) whole_total
                  ∙ sym (
                      same_count m.hidden m.attention_heads size m.key_value_heads m.intermediate
                        m.vocab m.hidden_layers s.w_bit even))
          ]
    ]
