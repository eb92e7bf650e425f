-- ===== src/Simulator/Engine/Lanes.antt =====
-- engine.py: where the requests of an engine stand, and the steps that move none of them.
use open_tela.Prelude.{
  nat_eq, ℕ, ◌+◌, ◌≤◌, ◌≡◌, refl, sym, ◌∙◌, ap, List, Option, none, some, Result, ok, raised,
  sum_by, arith, ok-injective,
}
use open_tela.Prelude.Sets.{one_at}
use open_tela.Simulator.Request.{GenerationRequest}
use open_tela.Simulator.Memory.Sizes.{MemoryError}
use open_tela.Simulator.Memory.Planner.{MemoryPlanner}
use open_tela.Simulator.Engine.State.{ServingEngine, Batch, emit_event}
use open_tela.Simulator.Engine.Loading.{
  refresh_memory_usage, load_model, can_accommodate_request, get_memory_info, reserved,
}

pub record Lanes : Type 0 where
  pub queue : List ℕ
  pub current : Option ℕ
  pub ready : List ℕ
  pub batch : Option Batch
  pub done : List ℕ
  pub active : List ℕ
  pub room : ℕ

abbrev pub lanes : ServingEngine → Lanes
lanes e = record {
  queue = e.prefill_queue;
  current = e.current_prefill_request;
  ready = e.decode_ready_requests;
  batch = e.current_decode_batch;
  done = e.completed_requests;
  active = e.active_requests;
  room = e.max_batch_size;
}

abbrev pub current_sum : (ℕ → ℕ) → Option ℕ → ℕ
current_sum f none = 0
current_sum f (some h) = f h

abbrev pub batch_sum : (ℕ → ℕ) → Option Batch → ℕ
batch_sum f none = 0
batch_sum f (some b) = sum_by f b.requests

-- A weight, summed over all the requests that the engine knows. Equal sums for every weight say that
-- two engines hold the same requests, each as often.
abbrev pub weight : (ℕ → ℕ) → Lanes → ℕ
weight f l =
    sum_by f l.queue
    + current_sum f l.current
    + sum_by f l.ready
    + batch_sum f l.batch
    + sum_by f l.done

-- No request stands in two places, the active ones are those between the queue and completion, and
-- the batch has room.
pub record Good (l : Lanes) : Type 0 where
  pub once : (h : ℕ) → weight (one_at h) l ≤ 1
  pub working :
      (f : ℕ → ℕ)
      → sum_by f l.active ≡ current_sum f l.current + sum_by f l.ready + batch_sum f l.batch
  pub bounded : batch_sum (λ _. 1) l.batch ≤ l.room

-- What a part of a step promises: the invariant, and the same requests.
abbrev pub Flows : Lanes → Lanes → Type 0
Flows l l' = Good l → Good l' × ((f : ℕ → ℕ) → weight f l' ≡ weight f l)

pub Flows-refl : (l : Lanes) → Flows l l
Flows-refl l g = (g, λ f. refl)

pub Flows-trans : {l m n : Lanes} → Flows l m → Flows m n → Flows l n
Flows-trans p q g = let (g', same) = p g in let (g'', same') = q g' in (g'', λ f. same' f ∙ same f)

pub refresh-lanes : (e : ServingEngine) → lanes (refresh_memory_usage e) ≡ lanes e
unfolding refresh_memory_usage
refresh-lanes e = refl

pub load_model-lanes : (e : ServingEngine) → lanes (load_model e).1 ≡ lanes e
unfolding load_model refresh_memory_usage emit_event
load_model-lanes e = ground arith

pub can_accommodate-lanes :
    (e : ServingEngine) (r : GenerationRequest) → lanes (can_accommodate_request e r).1 ≡ lanes e
unfolding can_accommodate_request
can_accommodate-lanes e r = ground (arith, load_model-lanes e)

-- Whatever the answer, the engine is as `load_model` leaves it.
pub can_accommodate-loads :
    (e : ServingEngine) (r : GenerationRequest) → (can_accommodate_request e r).1 ≡ (load_model e).1
unfolding can_accommodate_request
can_accommodate-loads e r = ground arith

pub reserved-lanes :
    (e e' : ServingEngine) (x : Result MemoryError MemoryPlanner)
    → reserved e x ≡ ok e'
    → lanes e' ≡ lanes e
unfolding refresh_memory_usage
reserved-lanes e e' (ok p) h = ap lanes (sym (ok-injective h))
reserved-lanes e e' (raised x) h = cc

pub get_memory_info-lanes : (e : ServingEngine) → lanes (get_memory_info e).1 ≡ lanes e
unfolding get_memory_info refresh_memory_usage
get_memory_info-lanes e = refl
