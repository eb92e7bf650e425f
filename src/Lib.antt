-- ===== src/Lib.antt =====
-- OpenTela: the Python parts that decide, modelled and proved.
--
-- The repository is a network of nodes that serve language models. Three of its Python programs
-- carry logic of their own, and each is a directory here.
--
-- Simulator (contrib/serving-simulator/simulator/core) simulates a cluster by discrete events. A
-- generation request arrives, a scheduler places it on an engine, the engine admits it if its memory
-- planner has blocks for the prompt, prefills it, decodes it in a batch, and reports its completion.
--   * Config: config.py, `_normalize_parallel_config`.
--   * Request: request.py. A request counts its tokens and says when it is complete.
--   * Memory: memory.py. `Sizes` derives the sizes from the model, `Planner` has the blocks with
--     `can_allocate_request`, `allocate` and `free`; `Blocks`, `Freeing` and `Fit` are the proofs.
--   * Heapq: `heappush` and `heappop` of the `heapq` of Python's standard library.
--   * Events: events.py. `schedule_event`, `step` and `run` over handlers of a state of any type.
--   * Engine: engine.py. `State` and `Loading` are the state and admission, `Decoding` the decode
--     batch, `Stepping` the prefill and `step`. `Lanes` says where a request stands, and the files
--     ending in Flow and `Admission` follow it through `add_request` and every part of a step;
--     `Forming`, `Raising` and `Failing` are about what a step may raise.
--   * Scheduler: scheduler.py, one function for each scheduler.
--   * Cluster: cluster_manager.py. `State` has the records, `Dispatch` puts events into the loop,
--     `Requests`, `Nodes` and `Handlers` are the handlers, `Simulation` is `run_simulation`. `Growth`
--     and `Queueing` follow the loop through every handler; `Ledger` counts requests and nodes,
--     `Machine` is an abstract machine over these counts (`Moves` proves its steps), and `Refinement`
--     reads the handlers as its steps. `Placing`, `Progress`, `Starting`, `Setup` and `Outcome` are
--     further proofs.
--   * Placement: placement.py. `Fitting` says which model fits on which node, `Replicas` is the strategy
--     that makes as many replicas as possible, `Search` the one that simulates all placements;
--     `Sizing`, `Counting`, `Capacity`, `Partitions` and `Best` are the proofs.
--   * Analyzer: model_analyzer.py, roofline.py and configs/models/llama.py. `Layers` has the layers of
--     the prefill and of a decode step, `Totals` their sums, `Sums` and `Weights` the proofs.
--   * Examples: tests, and every theorem at a small input.
-- Auth (contrib/auth) is the service that gives an API key for a signed challenge. `Texts` has
-- Python's `split` and `int`, `Challenge` the validation, `Server` the endpoints over the rows of the
-- database, `Operations` sequences of calls; `Validation`, `Keys`,
-- `Sessions`, `Standing` and `Replay` are proofs.
-- Fleet (contrib/fleet_manager/src/fleet_manager) keeps the number of jobs that a file asks for.
-- `Jobs` has `compute_diff` of apply.py, `Diff` and `Newest` the proofs; `Listing` has `worker_list` of
-- worker.py, which reads the output of `squeue`, and `Reading` the proofs.
-- `Relay` has relay.py, over a connection that is an argument, and `Polling` the proofs.
-- Prelude has what they share: tests, lists, dictionaries in insertion order, sets, results and texts.
--
-- How the state corresponds. An object that several parts share, the request, stands in a store, and
-- the queues hold its number; a set is a list without duplicates, and the order in which Python goes
-- through it is an argument, `listing`. A call that raises is a `Result`, a missing value an `Option`.
-- An attribute or a method that the source reads and never assigns, `_tp_size` and
-- `_block_memory_size_per_shard` of the planner and `_estimate_kv_cache_memory` of an engine, is an
-- `Option`: a read of a missing one raises, and a new object has none of them.
-- A multiset is compared by its sums: two lists have the same items, each as often, if every weight
-- has the same sum over both.
--
-- Numbers. A moment is a number of ticks of one microsecond. Memory is counted in bits times the
-- number of shards, and a score with its denominators multiplied out, so that all numbers are whole;
-- the rounding of floats is left out. Fuel stands in `run`, where a round handles one event, so that
-- with a limit of m events m + 1 rounds are enough, and in the loop that schedules the balancing of a
-- simulation, which takes a round for every ten seconds of its duration and one more. The search for
-- a tensor parallel size has a round for every GPU, which is more than there are powers of two.
--
-- Arguments. The durations of a prefill and of a decode step are floats of the model analyzer, the
-- draw of the random scheduler comes from the generator, and the signature check, the hash and the
-- new tokens of the key service from libraries; the arrival times, the drawn lengths and the colours
-- of a simulation come from generators and a hash; what a placement reads of the memory comes from
-- the model analyzer: they are arguments of the definitions that use them.
--
-- Not modelled: the random arrival processes and the trace format, the command lines, benchmarks,
-- plots and profilers, and the SSH connection and deployment of the fleet manager. The Go node, the
-- Rust program and the web parts are not Python.
pub mod Auth
pub mod Fleet
pub mod Prelude
pub mod Simulator
