-- ===== src/Simulator/Placement/Fitting.antt =====
-- placement.py: the nodes and the workloads, with config.py's `WorkloadConfig`, and which model fits
-- on which node.
use open_tela.Prelude.{
  ℕ, zero, suc, ◌+◌, ◌*◌, Bool, false, ◌||◌, List, [], ◌∷◌, Option, none, some, String, ltb, leb,
  if◌then◌else◌,
}
use open_tela.Prelude.Text.{codes, lower, occurs_in}

pub record PhysicalNodeConfig : Type 0 where
  pub gpu_type : String
  pub count : ℕ
  pub gpus_per_node : ℕ
  pub cost : ℕ

-- The fields that the placement reads.
pub record WorkloadConfig : Type 0 where
  pub model_id : String
  pub tensor_parallel_size : Option ℕ

-- `NodeConfiguration` of a replica, with the `tensor_parallel_size` of its settings.
pub record LogicalNode : Type 0 where
  pub number : ℕ
  pub model_id : String
  pub hardware : String
  pub tp_size : ℕ

-- The table of the hardware, and the memory that the model analyzer reports for a model, a hardware
-- and a tensor parallel size: `none` is an exception.
pub record Analysis : Type 0 where
  pub vmemory : String → ℕ
  pub memory_consumption : String → String → ℕ → Option ℕ
  pub memory_threshold : ℕ × ℕ

-- `"llama" in model_id.lower() or "Llama" in model_id`: only these models have a configuration.
unfoldable pub has_config_module : String → Bool
has_config_module m =
    occurs_in (codes "llama") (lower (codes m)) || occurs_in (codes "Llama") (codes m)

module _ (a : Analysis) where
  abbrev pub below_threshold : ℕ → Option ℕ → Bool
  below_threshold memory none = false
  below_threshold memory (some needed) =
      ltb (needed * a.memory_threshold.1) (memory * a.memory_threshold.0)

  -- `_check_fits`
  unfoldable pub check_fits : String → String → ℕ → Bool
  check_fits hardware model tp_size =
      if has_config_module model
      then below_threshold (a.vmemory hardware) (a.memory_consumption model hardware tp_size)
      else false

  abbrev pub or_zero : Option ℕ → ℕ
  or_zero none = 0
  or_zero (some n) = n

  -- `_estimate_model_memory`
  unfoldable pub estimate_model_memory : String → ℕ
  estimate_model_memory model =
      if has_config_module model then or_zero (a.memory_consumption model "NVDA:A100" 1) else 0

  -- The loop over the powers of two from `tp` on.
  unfoldable pub first_fit : ℕ → String → String → ℕ → ℕ → ℕ
  first_fit zero hardware model max_tp tp = max_tp + 1
  first_fit (suc fuel) hardware model max_tp tp =
      let rest = first_fit fuel hardware model max_tp (tp * 2) in
      if ltb max_tp tp then max_tp + 1 else if check_fits hardware model tp then tp else rest

  -- `_find_min_tp_size`: the logarithm of 0 raises, and the handler answers 1.
  unfoldable pub find_min_tp_size : String → String → ℕ → ℕ
  find_min_tp_size hardware model zero = 1
  find_min_tp_size hardware model (suc n) = first_fit (suc n) hardware model (suc n) 1

  -- The size that a workload asks for, or the smallest that fits.
  unfoldable pub min_tp : PhysicalNodeConfig → WorkloadConfig → ℕ
  min_tp p wl = elim wl.tensor_parallel_size [
    | some tp ↦ tp
    | none ↦ find_min_tp_size p.gpu_type wl.model_id p.gpus_per_node
  ]

-- `for _ in range(p_node.count)`: nodes one by one.
abbrev pub copies : ℕ → PhysicalNodeConfig → List PhysicalNodeConfig → List PhysicalNodeConfig
copies zero p rest = rest
copies (suc n) p rest = record p { count = 1 } ∷ copies n p rest

unfoldable pub flatten : List PhysicalNodeConfig → List PhysicalNodeConfig
flatten [] = []
flatten (p ∷ ps) = copies p.count p (flatten ps)

-- Python's stable sort, ascending by the key.
module _ {ℓ} {A : Type ℓ} (key : A → ℕ) where
  unfoldable pub insert_ascending : A → List A → List A
  insert_ascending x [] = x ∷ []
  insert_ascending x (y ∷ ys) =
      if leb (key x) (key y) then x ∷ y ∷ ys else y ∷ insert_ascending x ys

  unfoldable pub sort_ascending : List A → List A
  sort_ascending [] = []
  sort_ascending (x ∷ xs) = insert_ascending x (sort_ascending xs)

  -- With `reverse=True`, which keeps the order of equal keys.
  unfoldable pub insert_descending : A → List A → List A
  insert_descending x [] = x ∷ []
  insert_descending x (y ∷ ys) =
      if leb (key y) (key x) then x ∷ y ∷ ys else y ∷ insert_descending x ys

  unfoldable pub sort_descending : List A → List A
  sort_descending [] = []
  sort_descending (x ∷ xs) = insert_descending x (sort_descending xs)
