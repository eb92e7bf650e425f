-- ===== src/Simulator/Analyzer.antt =====
-- contrib/serving-simulator/simulator/core/model_analyzer.py and roofline.py, with the model
-- configuration simulator/configs/models/llama.py: operations, memory accesses and times of a model.
-- Memory is counted in bits. A time is counted in units of 1 / (8 * bandwidth * max_OPS) seconds, in
-- which both sides of the roofline are whole. `Layers` has the layers of a stage, `Totals` their sums
-- and the calls; the proofs stand in the modules behind them.
pub mod Layers
pub mod Totals
pub mod Sums
pub mod Weights
