-- ===== src/Simulator/Engine/CompleteFlow.antt =====
-- engine.py: the requests in `_process_decode_batch`.
use open_tela.Prelude.{
  ℕ, ◌+◌, ◌≤◌, ◌≡◌, refl, sym, ◌∙◌, ap, List, [], ◌∷◌, none, some, ok, raised, sum_by, arith,
  Option-cases, inl, inr, ok-injective, nat_eq, sum_by-append, >>=-eq-ok, map, String,
}
use mathlib.Core.Path.{subst}
use open_tela.Prelude.Sets.{one_at, remove, sum_by-remove, remove-some}
use open_tela.Simulator.Memory.Planner.{allocate, free}
use open_tela.Simulator.Request
use open_tela.Simulator.Events.{Event}
use open_tela.Simulator.Engine.State.{
  completed_if_empty, ServingEngine, EngineError, key_error, Store, Batch, remove_from_batch,
}
use open_tela.Simulator.Engine.Loading.{with_planner}
use open_tela.Simulator.Engine.Loading.{lift_memory}
use open_tela.Simulator.Engine.Decoding.{
  after_decoding, decode_end, decode_start, complete_one, Decoded, decode_one, decode_all,
  complete_all, process_decode_batch, free_completed, trace_decode, handled,
}
use open_tela.Simulator.Engine.Lanes.{
  lanes, weight, current_sum, batch_sum, Flows, get_memory_info-lanes, refresh-lanes,
}
use open_tela.Simulator.Engine.PrefillFlow.{one_at_self}

-- Whoever is complete was decoded.
decode_one-complete :
    (f : ℕ → ℕ) (h : ℕ) (d d' : Decoded)
    → decode_one h d ≡ ok d'
    → sum_by f d'.complete ≤ sum_by f d.complete + f h
unfolding decode_one
decode_one-complete f h d d' r =
    let (p, held, done) =
      >>=-eq-ok (lift_memory (allocate d.planner (Request.decode (d.store h)).0)) _ r in
    rw (← ok-injective done) (ground (arith, sum_by-append f d.complete (h ∷ [])))

pub decode_all-complete :
    (f : ℕ → ℕ) (hs : List ℕ) (d d' : Decoded)
    → decode_all hs d ≡ ok d'
    → sum_by f d'.complete ≤ sum_by f d.complete + sum_by f hs
unfolding decode_all
decode_all-complete f [] d d' r =
    omega (arith, ap (λ (t : Decoded). sum_by f t.complete) (ok-injective r))
decode_all-complete f (h ∷ hs) d d' r =
    let (mid, one, rest) = >>=-eq-ok (decode_one h d) (λ m. decode_all hs m) r in
    omega (arith, decode_one-complete f h d mid one, decode_all-complete f hs mid d' rest)

sum_by-remove_from_batch :
    (f : ℕ → ℕ) (h : ℕ) (b : Batch)
    → 1 ≤ sum_by (one_at h) b.requests
    → sum_by f (remove_from_batch h b).requests + f h ≡ sum_by f b.requests
unfolding remove_from_batch
sum_by-remove_from_batch f h b stands =
    let (rest, found) = remove-some h b.requests stands in
    rw found (go rest (sum_by-remove f h b.requests rest found))
  where
    go :
        (rest : List ℕ)
        → sum_by f rest + f h ≡ sum_by f b.requests
        → sum_by f (completed_if_empty b rest).requests + f h ≡ sum_by f b.requests
    go [] e = e
    go (x ∷ xs) e = e

-- What the loop over the completed requests `hs` changes.
record Moved (hs : List ℕ) (e : ServingEngine) (b : Batch) (e' : ServingEngine) (b' : Batch)
    : Type 0 where
  queue_same : e'.prefill_queue ≡ e.prefill_queue
  current_same : e'.current_prefill_request ≡ e.current_prefill_request
  ready_same : e'.decode_ready_requests ≡ e.decode_ready_requests
  room_same : e'.max_batch_size ≡ e.max_batch_size
  from_active : (f : ℕ → ℕ) → sum_by f e'.active_requests + sum_by f hs ≡ sum_by f e.active_requests
  to_done :
      (f : ℕ → ℕ) → sum_by f e'.completed_requests ≡ sum_by f e.completed_requests + sum_by f hs
  from_batch : (f : ℕ → ℕ) → sum_by f b'.requests + sum_by f hs ≡ sum_by f b.requests

abbrev Triple : Type 0
Triple = ServingEngine × Batch × List Event

complete_all_nil : (s : Store) (t : ℕ) (x : Triple) → complete_all s t [] x ≡ ok x
unfolding complete_all
complete_all_nil s t x = refl

pub complete_all_step :
    (s : Store) (t h : ℕ) (hs active : List ℕ) (x : Triple)
    → remove h (x.0).active_requests ≡ some active
    → complete_all s t (h ∷ hs) x ≡ complete_all s t hs (complete_one s t h active x)
unfolding complete_all
complete_all_step s t h hs active x found = rw (found, complete_all)

complete_all_absent :
    (s : Store) (t h : ℕ) (hs : List ℕ) (x : Triple)
    → remove h (x.0).active_requests ≡ none
    → complete_all s t (h ∷ hs) x ≡ raised key_error
unfolding complete_all
complete_all_absent s t h hs x found = rw (found, complete_all)

complete_all-Moved :
    (s : Store) (t : ℕ) (hs : List ℕ) (x x' : Triple)
    → ((k : ℕ) → sum_by (one_at k) hs ≤ sum_by (one_at k) (x.1).requests)
    → complete_all s t hs x ≡ ok x'
    → Moved hs x.0 x.1 x'.0 x'.1
complete_all-Moved s t [] x x' inside r =
    let same : x' ≡ x =
      sym (ok-injective {E = EngineError} {A = Triple} (sym (complete_all_nil s t x) ∙ r)) in
    rw same (record {
      queue_same = refl;
      current_same = refl;
      ready_same = refl;
      room_same = refl;
      from_active = λ f. omega arith;
      to_done = λ f. omega arith;
      from_batch = λ f. omega arith;
    })
complete_all-Moved s t (h ∷ hs) x x' inside r =
    elim (Option-cases (remove h (x.0).active_requests)) [
      | inl n ↦ cc (complete_all_absent s t h hs x n)
      | inr (active, found) ↦
          let y = complete_one s t h active x in
          let stands : 1 ≤ sum_by (one_at h) (x.1).requests =
            omega (arith, inside h, one_at_self h) in
          let left : (f : ℕ → ℕ) → sum_by f (y.1).requests + f h ≡ sum_by f (x.1).requests =
            λ f. sum_by-remove_from_batch f h x.1 stands in
          let m =
            complete_all-Moved s t hs y x' (λ k. omega (arith, inside k, left (one_at k)))
              (sym (complete_all_step s t h hs active x found) ∙ r) in
          record {
            queue_same = m.queue_same;
            current_same = m.current_same;
            ready_same = m.ready_same;
            room_same = m.room_same;
            from_active = λ f.
                omega
                  (arith, m.from_active f, sum_by-remove f h (x.0).active_requests active found);
            to_done =
                λ f. omega (arith, m.to_done f, sum_by-append f (x.0).completed_requests (h ∷ []));
            from_batch = λ f. omega (arith, m.from_batch f, left f);
          }
    ]

free_completed-lanes :
    (ids : List String) (e e' : ServingEngine) → free_completed ids e ≡ ok e' → lanes e' ≡ lanes e
free_completed-lanes [] e e' r = ap lanes (sym (ok-injective r))
free_completed-lanes (id ∷ ids) e e' r =
    let (p, held, done) = >>=-eq-ok (lift_memory (free e.memory_planner (id ∷ ids))) _ r in
    ap lanes (sym (ok-injective done)) ∙ refresh-lanes (with_planner e p)

trace_decode-lanes :
    (hs : List ℕ) (a b : ℕ) (s : Store) (e : ServingEngine)
    → lanes (trace_decode hs a b s e) ≡ lanes e
trace_decode-lanes [] a b s e = refl
trace_decode-lanes (h ∷ hs) a b s e = get_memory_info-lanes e

Moved-Flows :
    (hs : List ℕ) (e e₁ e₂ : ServingEngine) (b b' : Batch)
    → lanes e₁ ≡ lanes e
    → e.current_decode_batch ≡ some b
    → Moved hs e₁ b e₂ b'
    → Flows (lanes e) (lanes (record e₂ { current_decode_batch = some b' }))
Moved-Flows hs e e₁ e₂ b b' same has m g =
    let queue : (f : ℕ → ℕ) → sum_by f e₂.prefill_queue ≡ sum_by f e.prefill_queue =
      λ f. ap (sum_by f) (m.queue_same ∙ ap (λ l. l.queue) same) in
    let current : (f : ℕ → ℕ)
        → current_sum f e₂.current_prefill_request ≡ current_sum f e.current_prefill_request =
      λ f. ap (current_sum f) (m.current_same ∙ ap (λ l. l.current) same) in
    let ready : (f : ℕ → ℕ) → sum_by f e₂.decode_ready_requests ≡ sum_by f e.decode_ready_requests =
      λ f. ap (sum_by f) (m.ready_same ∙ ap (λ l. l.ready) same) in
    let done : (f : ℕ → ℕ) → sum_by f e₁.completed_requests ≡ sum_by f e.completed_requests =
      λ f. ap (λ l. sum_by f l.done) same in
    let active : (f : ℕ → ℕ) → sum_by f e₁.active_requests ≡ sum_by f e.active_requests =
      λ f. ap (λ l. sum_by f l.active) same in
    let room : e₂.max_batch_size ≡ e.max_batch_size = m.room_same ∙ ap (λ l. l.room) same in
    let before : (f : ℕ → ℕ) → batch_sum f e.current_decode_batch ≡ sum_by f b.requests =
      λ f. ap (batch_sum f) has in
    let kept : (f : ℕ → ℕ)
        → weight f (lanes (record e₂ { current_decode_batch = some b' })) ≡ weight f (lanes e) =
      λ f.
        omega (arith, queue f, current f, ready f, done f, before f, m.from_batch f, m.to_done f) in
    (
      record {
        once = λ k. omega (arith, g.once k, kept (one_at k));
        working = λ f. omega (
          arith,
          g.working f,
          current f,
          ready f,
          active f,
          before f,
          m.from_batch f,
          m.from_active f,
        );
        bounded = omega (arith, g.bounded, before (λ _. 1), m.from_batch (λ _. 1), room);
      },
      kept,
    )

-- A decode step over the current batch keeps the invariant, and the engine holds the same requests.
pub process_decode_batch-Flows :
    (decode_time : ℕ → ℕ → ℕ) (b : Batch) (e : ServingEngine) (s : Store) (events : List Event)
    (after : ServingEngine × Store)
    → e.current_decode_batch ≡ some b
    → process_decode_batch decode_time b (e, s) ≡ ok (events, after)
    → Flows (lanes e) (lanes after.0)
unfolding process_decode_batch
process_decode_batch-Flows decode_time b e s events after has r =
    let first : Decoded = record { store = s; planner = e.memory_planner; complete = [] } in
    let (d, decoded, r₁) =
      >>=-eq-ok
        (decode_all b.requests (record { store = s; planner = e.memory_planner; complete = [] })) _
        r in
    let start = after_decoding decode_time b (e, s) d.planner in
    let (x, moved, r₂) =
      >>=-eq-ok (complete_all d.store (decode_end decode_time b (e, s)) d.complete (start, b, [])) _
        r₁ in
    let e₂ = record (x.0) { current_decode_batch = some x.1 } in
    let (e₃, freed, r₃) =
      >>=-eq-ok (free_completed (map (λ h. (d.store h).req_id) d.complete) e₂) _ r₂ in
    let m =
      complete_all-Moved d.store (decode_end decode_time b (e, s)) d.complete (start, b, []) x
        (λ k. omega (arith, decode_all-complete (one_at k) b.requests first d decoded)) moved in
    let flows = Moved-Flows d.complete e start x.0 b x.1 (refresh-lanes _) has m in
    let same : lanes after.0 ≡ lanes e₂ =
      ap (λ t. lanes t.1.0) (sym (ok-injective r₃))
      ∙ trace_decode-lanes (handled s b.requests) (decode_start decode_time e)
          (decode_end decode_time b (e, s)) d.store e₃
      ∙ free_completed-lanes _ e₂ e₃ freed in
    subst (λ l. Flows (lanes e) l) (sym same) flows
