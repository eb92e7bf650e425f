-- ===== src/Simulator/Engine/StepFlow.antt =====
-- engine.py: the whole `step`.
use open_tela.Prelude.{
  length, ℕ, ◌≡◌, refl, sym, ap, true, List, [], ◌∷◌, Option, none, some, Result, ok, arith,
  Bool-cases, inl, inr, ok-injective, ◌==◌, nat_eq, >>=-eq-ok, sum_by,
}
use mathlib.Core.Path.{subst}
use open_tela.Prelude.Sets.{one_at}
use open_tela.Simulator.Events.{Event}
use open_tela.Simulator.Engine.State.{
  ServingEngine, EngineError, Store, Batch, is_empty, set_current_time,
}
use open_tela.Simulator.Engine.Stepping.{
  start_next_prefill, process_prefill, batch_up, drop_empty_batch, dropped_if_empty, decode_batch,
  clock_to, step,
}
use open_tela.Simulator.Engine.Lanes.{
  lanes, weight, batch_sum, Good, Flows, Flows-refl, Flows-trans,
}
use open_tela.Simulator.Engine.PrefillFlow.{start_next_prefill-Flows, process_prefill-Flows}
use open_tela.Simulator.Engine.DecodeFlow.{form_decode_batch-Flows, add_to_decode_batch-Flows}
use open_tela.Simulator.Engine.CompleteFlow.{process_decode_batch-Flows}

pub batch_up-Flows :
    (listing : List ℕ → List ℕ) (e e' : ServingEngine)
    → batch_up listing e.current_decode_batch e.decode_ready_requests e ≡ ok e'
    → Flows (lanes e) (lanes e')
batch_up-Flows listing e e' r = go e.current_decode_batch e.decode_ready_requests refl r
  where
    go :
        (b : Option Batch) (hs : List ℕ)
        → e.current_decode_batch ≡ b
        → batch_up listing b hs e ≡ ok e'
        → Flows (lanes e) (lanes e')
    go none [] eb t =
        unfold batch_up in
        subst (λ x. Flows (lanes e) (lanes x)) (ok-injective t) (Flows-refl (lanes e))
    go (some b) [] eb t =
        unfold batch_up in
        subst (λ x. Flows (lanes e) (lanes x)) (ok-injective t) (Flows-refl (lanes e))
    go none (h ∷ hs) eb t = unfold batch_up in form_decode_batch-Flows listing e e' eb t
    go (some b) (h ∷ hs) eb t = unfold batch_up in add_to_decode_batch-Flows listing e e' b eb t

decode_batch-Flows :
    (decode_time : ℕ → ℕ → ℕ) (e : ServingEngine) (s : Store)
    (out : List Event × (ServingEngine × Store))
    → decode_batch decode_time e.current_decode_batch (e, s) ≡ ok out
    → Flows (lanes e) (lanes out.1.0)
decode_batch-Flows decode_time e s out r = go e.current_decode_batch refl r
  where
    stays :
        ◌≡◌ {A = Result EngineError (List Event × (ServingEngine × Store))}
          (ok ([], (e, s)))
          (ok out)
        → Flows (lanes e) (lanes out.1.0)
    stays t = subst (λ x. Flows (lanes e) (lanes x.1.0)) (ok-injective t) (Flows-refl (lanes e))

    go :
        (b : Option Batch)
        → e.current_decode_batch ≡ b
        → decode_batch decode_time b (e, s) ≡ ok out
        → Flows (lanes e) (lanes out.1.0)
    go none eb t = unfold decode_batch in stays t
    go (some b) eb t =
        unfold decode_batch in
        elim (Bool-cases (is_empty b)) [
          | inl h ↦ stays (rw h at t)
          | inr h ↦ process_decode_batch-Flows decode_time b e s out.0 out.1 eb (rw h at t)
        ]

drop_empty_batch-Flows : (e : ServingEngine) → Flows (lanes e) (lanes (drop_empty_batch e))
unfolding drop_empty_batch
drop_empty_batch-Flows e g =
    let same : (f : ℕ → ℕ)
        → batch_sum f (dropped_if_empty e.current_decode_batch)
          ≡ batch_sum f e.current_decode_batch =
      λ f. dropped f e.current_decode_batch in
    (
      record {
        once = λ k. omega (arith, g.once k, same (one_at k));
        working = λ f. omega (arith, g.working f, same f);
        bounded = omega (arith, g.bounded, same (λ _. 1));
      },
      λ f. omega (arith, same f),
    )
  where
    empty : (f : ℕ → ℕ) (xs : List ℕ) → (length xs == 0) ≡ true → sum_by f xs ≡ 0
    empty f [] h = refl
    empty f (x ∷ xs) h = absurd (ground arith)

    dropped : (f : ℕ → ℕ) (b : Option Batch) → batch_sum f (dropped_if_empty b) ≡ batch_sum f b
    dropped f none = refl
    dropped f (some b) = elim (Bool-cases (is_empty b)) [
      | inl h ↦ rw h (sym (empty f b.requests h))
      | inr h ↦ rw h
    ]

pub clock_to-Flows : (now : Option ℕ) (e : ServingEngine) → Flows (lanes e) (lanes (clock_to now e))
unfolding set_current_time
clock_to-Flows none e = Flows-refl (lanes e)
clock_to-Flows (some t) e = Flows-refl (lanes e)

-- Let every request of an engine stand in one place only: in the prefill queue, under prefill,
-- ready for decoding, in the batch or among the completed ones; let the active requests be those
-- between the queue and completion, and the batch be within its limit. Then the same holds after a
-- step that returns, and the engine has the same requests, each as often.
pub step-Good :
    (prefill_time decode_time : ℕ → ℕ → ℕ) (listing : List ℕ → List ℕ) (now : Option ℕ)
    (e : ServingEngine) (s : Store) (out : List Event × (ServingEngine × Store))
    → Good (lanes e)
    → step prefill_time decode_time listing now (e, s) ≡ ok out
    → Good (lanes out.1.0) × ((f : ℕ → ℕ) → weight f (lanes out.1.0) ≡ weight f (lanes e))
unfolding step
step-Good prefill_time decode_time listing now e s out g r =
    let timed = clock_to now e in
    let (started, r₁, k₁) =
      >>=-eq-ok (start_next_prefill timed.current_prefill_request timed.prefill_queue (timed, s)) _
        r in
    let (e', s') = process_prefill prefill_time started.0.current_prefill_request started in
    let (batched, r₂, k₂) =
      >>=-eq-ok (batch_up listing e'.current_decode_batch e'.decode_ready_requests e') _ k₁ in
    let (x, r₃, k₃) =
      >>=-eq-ok (decode_batch decode_time batched.current_decode_batch (batched, s')) _ k₂ in
    let all = Flows-trans (clock_to-Flows now e) (
      Flows-trans (start_next_prefill-Flows timed s started r₁) (
        Flows-trans (process_prefill-Flows prefill_time started.0 started.1) (
          Flows-trans (batch_up-Flows listing e' batched r₂) (
            Flows-trans (decode_batch-Flows decode_time batched s' x r₃)
              (drop_empty_batch-Flows x.1.0))))) in
    subst (λ l. Good l × ((f : ℕ → ℕ) → weight f l ≡ weight f (lanes e)))
      (ap (λ t. lanes t.1.0) (ok-injective k₃)) (all g)
