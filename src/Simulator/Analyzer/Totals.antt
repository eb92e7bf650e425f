-- ===== src/Simulator/Analyzer/Totals.antt =====
-- model_analyzer.py, roofline.py: times, totals and the memory of a model.
use open_tela.Prelude.{
  ℕ, zero, suc, ◌+◌, ◌*◌, Bool, ◌&&◌, ◌||◌, List, [], ◌∷◌, Option, none, some, ltb, leb, nat_beq,
  if◌then◌else◌,
}
use open_tela.Simulator.Analyzer.Layers.{
  LlamaParams, Setting, LayerCost, Layer, Linear, get_linear_layers, stage_layers, lm_head,
  head_size, block_size_r,
}

pub record Hardware : Type 0 where
  pub bandwidth : ℕ
  pub int8 : ℕ
  pub fp16 : ℕ
  pub onchip_buffer : ℕ

-- `max_OPS` of `get_hardware_info`
unfoldable pub max_ops : Hardware → Setting → ℕ
max_ops h s = if leb s.w_bit 8 && leb s.a_bit 8 && leb s.kv_bit 8 then h.int8 else h.fp16

unfoldable pub memory_access : LayerCost → ℕ
memory_access c = c.load_weight + c.load_act + c.store_act + c.load_kv_cache + c.store_kv_cache

pub data Bound : Type 0 where
  memory compute : Bound

-- `roofline_analyze`: which side binds. The intensity is `ops / (access / 8)` and the turning point
-- `peak / bandwidth`; `none` is a division by 0.
unfoldable pub roofline_bound : ℕ → ℕ → ℕ → ℕ → Option Bound
roofline_bound bandwidth peak ops access =
    if nat_beq access 0 || nat_beq bandwidth 0
    then none
    else some (if ltb (ops * 8 * bandwidth) (peak * access) then memory else compute)

-- `OPs / performance`: bound by memory the performance is the intensity times the bandwidth, which
-- leaves `access / (8 * bandwidth)`, and is 0 where there are no operations.
abbrev pub time_at : ℕ → ℕ → ℕ → ℕ → Option Bound → Option ℕ
time_at bandwidth peak ops access none = none
time_at bandwidth peak ops access (some memory) =
    if nat_beq ops 0 then none else some (access * peak)
time_at bandwidth peak ops access (some compute) =
    if nat_beq peak 0 then none else some (ops * 8 * bandwidth)

unfoldable pub inference_time : ℕ → ℕ → LayerCost → Option ℕ
inference_time bandwidth peak c =
    time_at bandwidth peak c.ops (memory_access c)
      (roofline_bound bandwidth peak c.ops (memory_access c))

-- The sums over `ALL_DATA_NAMES`.
pub record Total : Type 0 where
  pub costs : LayerCost
  pub access : ℕ
  pub time : ℕ

abbrev pub no_cost : LayerCost
no_cost = record {
  ops = 0;
  load_weight = 0;
  load_act = 0;
  store_act = 0;
  load_kv_cache = 0;
  store_kv_cache = 0;
}

-- `total[name] += result[name] * times`
abbrev pub plus : LayerCost → LayerCost → ℕ → LayerCost
plus a b times = record {
  ops = a.ops + b.ops * times;
  load_weight = a.load_weight + b.load_weight * times;
  load_act = a.load_act + b.load_act * times;
  store_act = a.store_act + b.store_act * times;
  load_kv_cache = a.load_kv_cache + b.load_kv_cache * times;
  store_kv_cache = a.store_kv_cache + b.store_kv_cache * times;
}

abbrev pub add_time : LayerCost → ℕ → Option ℕ → Total → Option Total
add_time c times none t = none
add_time c times (some dt) t = some (record {
  costs = plus t.costs c times;
  access = t.access + memory_access c * times;
  time = t.time + dt * times;
})

module _ (bandwidth peak : ℕ) where
  unfoldable pub add_layer : ℕ → Layer → Option Total → Option Total
  add_layer times l none = none
  add_layer times l (some t) = add_time l.cost times (inference_time bandwidth peak l.cost) t

  unfoldable pub add_layers : ℕ → List Layer → Option Total → Option Total
  add_layers times [] t = t
  add_layers times (l ∷ ls) t = add_layers times ls (add_layer times l t)

-- The activations of one layer of every kind.
unfoldable pub tmp_act : List Layer → ℕ
tmp_act [] = 0
tmp_act (l ∷ ls) = l.cost.store_act + tmp_act ls

-- The entries of `total_results` for one stage.
pub record StageResult : Type 0 where
  pub total : Total
  pub memory_consumption : ℕ
  pub memory_consumption_weight : ℕ
  pub memory_consumption_kv_cache : ℕ
  pub memory_consumption_tmp_act : ℕ

abbrev pub stage_result : List Layer → Total → Option Total → Option StageResult
stage_result layers prefill none = none
stage_result layers prefill (some t) = some (record {
  total = t;
  memory_consumption = tmp_act layers + (prefill.costs.load_weight + prefill.costs.store_kv_cache);
  memory_consumption_weight = prefill.costs.load_weight;
  memory_consumption_kv_cache = prefill.costs.store_kv_cache;
  memory_consumption_tmp_act = tmp_act layers;
})

abbrev pub both {ℓ κ} : {A : Type ℓ} {B : Type κ} → Option A → Option B → Option (A × B)
both (some a) (some b) = some (a, b)
both _ _ = none

abbrev pub no_total : Total
no_total = record { costs = no_cost; access = 0; time = 0 }

module _ (h : Hardware) (m : LlamaParams) (s : Setting) where
  -- The totals of a stage before the head of the language model is added.
  unfoldable pub body_total : List Layer → Option Total
  body_total layers = add_layers h.bandwidth (max_ops h s) m.hidden_layers layers (some no_total)

  -- `post_process` behind it, once.
  unfoldable pub with_head : Option Total → Option Total
  with_head t = add_layer h.bandwidth (max_ops h s) 1 (lm_head m s) t

  abbrev pub finish_analysis :
      List Layer → List Layer → Option (Total × Total) → Option (StageResult × StageResult)
  finish_analysis decode prefill none = none
  finish_analysis decode prefill (some (d, p)) =
      both (stage_result decode p (with_head (some d)))
        (stage_result prefill p (with_head (some p)))

  abbrev pub analyze_layers : Option (List Linear) → Option (StageResult × StageResult)
  analyze_layers none = none
  analyze_layers (some linears) =
      let decode = stage_layers m s h.onchip_buffer 1 linears in
      let prefill = stage_layers m s h.onchip_buffer s.seqlen linears in
      finish_analysis decode prefill (both (body_total decode) (body_total prefill))

  -- No division of `analyze` is by 0.
  unfoldable pub divisors_fine : Bool
  divisors_fine =
      ltb 0 m.attention_heads
      && ltb 0 s.tp_size
      && ltb 0 (s.kv_bit * head_size m)
      && ltb 0 (block_size_r m s h.onchip_buffer)

  -- `analyze`: the results of decode and prefill; `none` is an exception.
  unfoldable pub analyze : Option (StageResult × StageResult)
  analyze =
      if ltb 0 s.seqlen && ltb 0 s.batchsize && divisors_fine
      then analyze_layers (get_linear_layers m s.tp_size)
      else none

pub record TaskResult : Type 0 where
  pub task_time : ℕ
  pub prefill_time : ℕ
  pub tpot : ℕ × ℕ  -- `inference_time / gen_len`, which counts the prefill

module _ (h : Hardware) (m : LlamaParams) (s : Setting) where
  abbrev pub add_decode : Option (StageResult × StageResult) → ℕ → Option ℕ
  add_decode none time = none
  add_decode (some (d, p)) time = some (time + d.total.time)

  -- The loop of `analyze_generate_task` over the sequence lengths from `n` on.
  unfoldable pub decode_times : ℕ → ℕ → Option ℕ → Option ℕ
  decode_times zero n time = time
  decode_times (suc count) n none = none
  decode_times (suc count) n (some time) =
      decode_times count (n + 1) (add_decode (analyze h m (record s { seqlen = n })) time)

  abbrev pub task_result : ℕ → ℕ → Option ℕ → Option TaskResult
  task_result gen_len prefill none = none
  task_result gen_len prefill (some time) =
      if nat_beq gen_len 0
      then none
      else some (record { task_time = time; prefill_time = prefill; tpot = (time, gen_len) })

  abbrev pub after_prefill : ℕ → ℕ → Option (StageResult × StageResult) → Option TaskResult
  after_prefill prompt_len gen_len none = none
  after_prefill prompt_len gen_len (some (d, p)) =
      task_result gen_len p.total.time (decode_times gen_len prompt_len (some p.total.time))

  -- `analyze_generate_task`
  unfoldable pub analyze_generate_task : ℕ → ℕ → Option TaskResult
  analyze_generate_task prompt_len gen_len =
      after_prefill prompt_len gen_len (analyze h m (record s { seqlen = prompt_len }))
