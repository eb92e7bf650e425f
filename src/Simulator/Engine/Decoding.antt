-- ===== src/Simulator/Engine/Decoding.antt =====
-- engine.py: the decode batch, its formation, and one decode step over it.
use open_tela.Prelude.{
  ℕ, ◌+◌, ◌-◌, max, Bool, true, false, List, [], ◌∷◌, ◌++◌, length, take, none, some, Result, ok,
  raised, leb, if◌then◌else◌, ◌>>=◌, ◌==◌, nat_eq, String, map,
}
use open_tela.Prelude.Sets.{remove}
use open_tela.Simulator.Request.{GenerationRequest, ReqStatus}
use open_tela.Simulator.Request
use open_tela.Simulator.Memory.Planner.{MemoryPlanner, allocate, free}
use open_tela.Simulator.Events.{Event, request_complete, EventData, high}
use open_tela.Simulator.Engine.State.{
  ServingEngine, EngineError, key_error, Store, update, Batch, decoding, Span, Phase, add_to_batch,
  remove_from_batch,
}
use open_tela.Simulator.Engine.Loading.{
  lift_memory, refresh_memory_usage, with_planner, get_memory_info,
}

-- `create_detailed_events`: the times are whole microseconds, a span lasts one at least.
unfoldable pub create_detailed_events : Phase → List ℕ → ℕ → ℕ → Store → List Span
create_detailed_events p hs start_at end_at s =
    map
      (λ h. record {
        phase = p;
        req_id = (s h).req_id;
        ts = start_at;
        dur = max (end_at - start_at) 1;
        tokens = (s h).generated_tokens;
      })
      hs

-- `set.remove` of each listed request in turn.
unfoldable pub remove_all : List ℕ → List ℕ → Result EngineError (List ℕ)
remove_all [] set = ok set
remove_all (h ∷ hs) set = elim (remove h set) [
  | none ↦ raised key_error
  | some rest ↦ remove_all hs rest
]

abbrev pub record_batch_size : ℕ → ServingEngine → ServingEngine
record_batch_size n e =
    let stats = e.statistics in
    record e { statistics = record stats { batch_sizes = stats.batch_sizes ++ n ∷ [] } }

abbrev pub push_all : List ℕ → Batch → Batch
push_all [] b = b
push_all (h ∷ hs) b = push_all hs (add_to_batch h b)

-- `listing` is the order in which Python goes through a set.
module _ (listing : List ℕ → List ℕ) where
  -- `_form_decode_batch`, called with no current batch and some request ready.
  unfoldable pub form_decode_batch : ServingEngine → Result EngineError ServingEngine
  form_decode_batch e =
      let batch_requests = take e.max_batch_size (listing e.decode_ready_requests) in
      remove_all batch_requests e.decode_ready_requests >>= λ ready. ok (
        record_batch_size (length batch_requests) (record e {
          decode_ready_requests = ready;
          batch_counter = e.batch_counter + 1;
          current_decode_batch = some (record {
            batch_number = e.batch_counter + 1;
            requests = batch_requests;
            status = decoding;
          });
        }))

  -- `_add_to_decode_batch`
  unfoldable pub add_to_decode_batch : Batch → ServingEngine → Result EngineError ServingEngine
  add_to_decode_batch b e =
      let size = length b.requests in
      let requests_to_add = take (e.max_batch_size - size) (listing e.decode_ready_requests) in
      if leb e.max_batch_size size
      then ok e
      else (remove_all requests_to_add e.decode_ready_requests >>= λ ready.
          let b' = push_all requests_to_add b in
          ok (
            record_batch_size (length b'.requests)
              (record e { decode_ready_requests = ready; current_decode_batch = some b' })))

-- `max(input_length + generated_tokens)` over the batch; 1024 is the fallback for an empty one.
abbrev pub longest : Store → List ℕ → ℕ
longest s [] = 0
longest s (h ∷ hs) = max ((s h).input_length + (s h).generated_tokens) (longest s hs)

abbrev pub current_seq_length : Store → List ℕ → ℕ
current_seq_length s [] = 1024
current_seq_length s hs = longest s hs

-- The requests that had not ended when the step began.
abbrev pub is_exit : ReqStatus → Bool
is_exit ReqStatus.exit = true
is_exit _ = false

abbrev pub handled : Store → List ℕ → List ℕ
handled s [] = []
handled s (h ∷ hs) = if is_exit (s h).status then handled s hs else h ∷ handled s hs

-- What the loop over the batch changes: the requests, the planner, and who is complete.
pub record Decoded : Type 0 where
  pub store : Store
  pub planner : MemoryPlanner
  pub complete : List ℕ

-- One round: `request._decode()`, then `self.memory_planner.allocate(request)`.
unfoldable pub decode_one : ℕ → Decoded → Result EngineError Decoded
decode_one h d =
    let (r', is_complete) = Request.decode (d.store h) in
    lift_memory (allocate d.planner r') >>= λ p. ok (record {
      store = update h (λ _. r') d.store;
      planner = p;
      complete = if is_complete then d.complete ++ h ∷ [] else d.complete;
    })

unfoldable pub decode_all : List ℕ → Decoded → Result EngineError Decoded
decode_all [] d = ok d
decode_all (h ∷ hs) d = decode_one h d >>= λ d'. decode_all hs d'

abbrev pub completion : ServingEngine → Store → ℕ → ℕ → Event
completion e s end_at h = record {
  timestamp = end_at;
  event_type = request_complete;
  target = e.engine_id;
  contents = EventData.completed (s h).req_id (s h).generated_tokens end_at;
  priority = high;
}

-- One round of the loop over the completed requests, behind the removal from the active ones.
abbrev pub complete_one :
    Store → ℕ → ℕ → List ℕ → ServingEngine × Batch × List Event → ServingEngine × Batch × List Event
complete_one s end_at h active (e, b, events) =
    let stats = e.statistics in
    (
      record e {
        active_requests = active;
        completed_requests = e.completed_requests ++ h ∷ [];
        statistics = record stats { requests_processed = stats.requests_processed + 1 };
      },
      remove_from_batch h b,
      events ++ completion e s end_at h ∷ [],
    )

-- The whole loop: the engine, its batch, and the events.
unfoldable pub complete_all :
    Store
    → ℕ
    → List ℕ
    → ServingEngine × Batch × List Event
    → Result EngineError (ServingEngine × Batch × List Event)
complete_all s end_at [] x = ok x
complete_all s end_at (h ∷ hs) x = elim (remove h (x.0).active_requests) [
  | none ↦ raised key_error
  | some active ↦ complete_all s end_at hs (complete_one s end_at h active x)
]

-- `if completed_request_ids: self.memory_planner.free(...)`
abbrev pub free_completed : List String → ServingEngine → Result EngineError ServingEngine
free_completed [] e = ok e
free_completed (id ∷ ids) e = lift_memory (free e.memory_planner (id ∷ ids)) >>= λ p.
    ok (refresh_memory_usage (with_planner e p))

abbrev pub trace_decode : List ℕ → ℕ → ℕ → Store → ServingEngine → ServingEngine
trace_decode [] start_at end_at s e = e
trace_decode (h ∷ hs) start_at end_at s e =
    let e' = (get_memory_info e).1 in
    record e' {
      trace_events =
          e'.trace_events ++ create_detailed_events Phase.decode (h ∷ hs) start_at end_at s;
    }

-- The GPU time of a decode step is what the model analyzer says, and a millisecond where that is 0.
module _ (decode_time : ℕ → ℕ → ℕ) where
  abbrev pub decode_duration : Store → List ℕ → ℕ
  decode_duration s hs =
      let t = decode_time (current_seq_length s hs) (length hs) in if t == 0 then 1000 else t

  abbrev pub decode_start : ServingEngine → ℕ
  decode_start e = max e.time_cursor e.current_time

  abbrev pub decode_end : Batch → ServingEngine × Store → ℕ
  decode_end b (e, s) = decode_start e + decode_duration s b.requests

  -- The engine behind the loop over the batch: the clock, the planner and the statistics.
  abbrev pub after_decoding : Batch → ServingEngine × Store → MemoryPlanner → ServingEngine
  after_decoding b (e, s) p =
      let stats = e.statistics in
      refresh_memory_usage (record e {
        time_cursor = decode_end b (e, s);
        memory_planner = p;
        statistics = record stats {
          total_decode_time = stats.total_decode_time + decode_duration s b.requests;
          total_tokens_generated = stats.total_tokens_generated + length b.requests;
        };
      })

  -- `_process_decode_batch`: the events of the completed requests, the engine and the requests.
  unfoldable pub process_decode_batch :
      Batch → ServingEngine × Store → Result EngineError (List Event × (ServingEngine × Store))
  process_decode_batch b (e, s) = do
    d ← decode_all b.requests (record { store = s; planner = e.memory_planner; complete = [] })
    x ←
        complete_all d.store (decode_end b (e, s)) d.complete
          (after_decoding b (e, s) d.planner, b, [])
    freed ←
        free_completed (map (λ h. (d.store h).req_id) d.complete)
          (record (x.0) { current_decode_batch = some x.1 })
    ok (
      x.2,
      (
        trace_decode (handled s b.requests) (decode_start e) (decode_end b (e, s)) d.store freed,
        d.store,
      ),
    )
