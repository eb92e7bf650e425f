-- ===== src/Simulator/Engine/Stepping.antt =====
-- engine.py: the prefill of one request, and `step`.
use open_tela.Prelude.{
  ℕ, ◌+◌, max, Bool, true, false, List, [], ◌∷◌, ◌++◌, Option, none, some, Result, ok,
  if◌then◌else◌, ◌>>=◌, ◌==◌, nat_eq,
}
use open_tela.Prelude.Sets.{add}
use open_tela.Simulator.Request.{start_prefill, set_prefill_finished_at}
use open_tela.Simulator.Memory.Planner.{has_allocation, allocate}
use open_tela.Simulator.Events.{Event, prefill_start, prefill_complete, EventData, high}
use open_tela.Simulator.Engine.State.{
  ServingEngine, EngineError, Store, update, Batch, Phase, is_empty, set_current_time,
}
use open_tela.Simulator.Engine.Loading.{
  lift_memory, can_accommodate_request, reserved, get_memory_info,
}
use open_tela.Simulator.Engine.Decoding.{
  create_detailed_events, form_decode_batch, add_to_decode_batch, process_decode_batch,
}

abbrev send : Event → ServingEngine → ServingEngine
send v e = record e { outbox = e.outbox ++ v ∷ [] }

-- The request leaves the queue and becomes the current one.
unfoldable pub begin_prefill : ℕ → List ℕ → ServingEngine × Store → ServingEngine × Store
begin_prefill h queue (e, s) =
    let started : Event = record {
      timestamp = max e.time_cursor e.current_time;
      event_type = prefill_start;
      target = e.engine_id;
      contents = EventData.of_request (s h).req_id;
      priority = high;
    } in
    (
      send started (record e {
        prefill_queue = queue;
        current_prefill_request = some h;
        active_requests = add h e.active_requests;
      }),
      update h start_prefill s,
    )

-- What follows the answer of `can_accommodate_request`.
abbrev pub start_admitted :
    ℕ → List ℕ → Store → ServingEngine → Bool → Result EngineError (ServingEngine × Store)
start_admitted h queue s e false = ok (e, s)
start_admitted h queue s e true =
    reserved e (allocate e.memory_planner (s h)) >>= λ e'. ok (begin_prefill h queue (e', s))

-- A request without blocks is admitted again, or waits at the head of the queue.
unfoldable pub start_head :
    ℕ → List ℕ → ServingEngine × Store → Result EngineError (ServingEngine × Store)
start_head h queue (e, s) =
    let (answer, e') = can_accommodate_request e (s h) in
    if has_allocation e.memory_planner (s h).req_id
    then ok (begin_prefill h queue (e, s))
    else (lift_memory answer >>= start_admitted h queue s e')

-- `_start_next_prefill`, behind the test that no prefill is under way.
unfoldable pub start_next_prefill :
    Option ℕ → List ℕ → ServingEngine × Store → Result EngineError (ServingEngine × Store)
start_next_prefill none (h ∷ queue) es = start_head h queue es
start_next_prefill _ _ es = ok es

module _ (prefill_time : ℕ → ℕ → ℕ) where
  abbrev pub prefill_duration : ℕ → ℕ
  prefill_duration n = let t = prefill_time n 1 in if t == 0 then 1000 else t

  -- `_process_individual_prefill`, and what `step` does with the request behind it: the prefill of
  -- the current request completes in one step, and the request is ready for decoding.
  unfoldable pub process_prefill : Option ℕ → ServingEngine × Store → ServingEngine × Store
  process_prefill none es = es
  process_prefill (some h) (e, s) =
      let duration = prefill_duration (s h).input_length in
      let start_at = max e.time_cursor e.current_time in
      let end_at = start_at + duration in
      let stats = e.statistics in
      let e' =
        (get_memory_info (record e {
          time_cursor = end_at;
          statistics = record stats { total_prefill_time = stats.total_prefill_time + duration };
        })).1 in
      let finished : Event = record {
        timestamp = end_at;
        event_type = prefill_complete;
        target = e.engine_id;
        contents = EventData.prefilled (s h).req_id duration;
        priority = high;
      } in
      (
        send finished (record e' {
          trace_events =
              e'.trace_events ++ create_detailed_events Phase.prefill (h ∷ []) start_at end_at s;
          decode_ready_requests = add h e'.decode_ready_requests;
          current_prefill_request = none;
        }),
        update h (set_prefill_finished_at end_at) s,
      )

-- The formation of the decode batch.
unfoldable pub batch_up :
    (List ℕ → List ℕ) → Option Batch → List ℕ → ServingEngine → Result EngineError ServingEngine
batch_up listing none (h ∷ hs) e = form_decode_batch listing e
batch_up listing (some b) (h ∷ hs) e = add_to_decode_batch listing b e
batch_up listing _ [] e = ok e

-- An empty batch is dropped.
abbrev pub dropped_if_empty : Option Batch → Option Batch
dropped_if_empty none = none
dropped_if_empty (some b) = if is_empty b then none else some b

unfoldable pub drop_empty_batch : ServingEngine → ServingEngine
drop_empty_batch e = record e { current_decode_batch = dropped_if_empty e.current_decode_batch }

-- The decode step of a batch that is not empty.
unfoldable pub decode_batch :
    (ℕ → ℕ → ℕ)
    → Option Batch
    → ServingEngine × Store
    → Result EngineError (List Event × (ServingEngine × Store))
decode_batch decode_time none es = ok ([], es)
decode_batch decode_time (some b) es =
    if is_empty b then ok ([], es) else process_decode_batch decode_time b es

abbrev pub clock_to : Option ℕ → ServingEngine → ServingEngine
clock_to none e = e
clock_to (some t) e = set_current_time t e

-- `ServingEngine.step`: the events of the completed requests, the engine and the requests.
module _ (prefill_time decode_time : ℕ → ℕ → ℕ) (listing : List ℕ → List ℕ) where
  unfoldable pub step :
      Option ℕ → ServingEngine × Store → Result EngineError (List Event × (ServingEngine × Store))
  step now (e, s) = do
    let timed = clock_to now e
    started ← start_next_prefill timed.current_prefill_request timed.prefill_queue (timed, s)
    let (e', s') = process_prefill prefill_time started.0.current_prefill_request started
    batched ← batch_up listing e'.current_decode_batch e'.decode_ready_requests e'
    (events, (after, s'')) ← decode_batch decode_time batched.current_decode_batch (batched, s')
    ok (events, (drop_empty_batch after, s''))
