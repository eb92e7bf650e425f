-- ===== src/Simulator/Request/Completion.antt =====
-- request.py: when a request's decoding is complete.
use open_tela.Prelude.{
  ℕ, zero, suc, ◌+◌, ◌≡◌, refl, ◌∙◌, ◌↔◌, true, inl, inr, arith, nat_eq, ==_cases,
}
use open_tela.Simulator.Request.{GenerationRequest, decode}

-- The request after k decode steps.
abbrev pub decodes : ℕ → GenerationRequest → GenerationRequest
decodes zero r = r
decodes (suc k) r = (decode (decodes k r)).0

decode-generated : (r : GenerationRequest) → (decode r).0.generated_tokens ≡ r.generated_tokens + 1
unfolding decode
decode-generated r = elim (==_cases (r.generated_tokens + 1) r.output_length) [
  | inl (t, e) ↦ rw t refl
  | inr (t, e) ↦ rw t refl
]

decode-output : (r : GenerationRequest) → (decode r).0.output_length ≡ r.output_length
unfolding decode
decode-output r = elim (==_cases (r.generated_tokens + 1) r.output_length) [
  | inl (t, e) ↦ rw t refl
  | inr (t, e) ↦ rw t refl
]

decodes-generated :
    (k : ℕ) (r : GenerationRequest) → (decodes k r).generated_tokens ≡ r.generated_tokens + k
decodes-generated zero r = omega arith
decodes-generated (suc k) r = omega (arith, decode-generated (decodes k r), decodes-generated k r)

decodes-output : (k : ℕ) (r : GenerationRequest) → (decodes k r).output_length ≡ r.output_length
decodes-output zero r = refl
decodes-output (suc k) r = decode-output (decodes k r) ∙ decodes-output k r

decode-done :
    (r : GenerationRequest) → (decode r).1 ≡ true ↔ r.generated_tokens + 1 ≡ r.output_length
unfolding decode
decode-done r = elim (==_cases (r.generated_tokens + 1) r.output_length) [
  | inl (t, e) ↦ (λ h. e, λ h. rw t refl)
  | inr (t, e) ↦ (λ h. cc (rw t at h), λ h. absurd (e h))
]

-- A decode step that follows k others reports completion exactly if it generates the token that
-- brings the count to the output length.
pub decode_complete :
    (k : ℕ) (r : GenerationRequest)
    → (decode (decodes k r)).1 ≡ true ↔ r.generated_tokens + k + 1 ≡ r.output_length
decode_complete k r =
    let (done, reached) = decode-done (decodes k r) in
    let count = decodes-generated k r in
    let output = decodes-output k r in
    (λ h. omega (arith, count, output, done h), λ h. reached (omega (arith, count, output)))
