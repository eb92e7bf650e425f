-- ===== src/Simulator/Request.antt =====
-- contrib/serving-simulator/simulator/core/request.py: one generation request and its life.
-- A moment is a number of ticks of one microsecond.
pub mod Completion
use open_tela.Prelude.{
  ℕ, ◌+◌, Bool, true, false, Option, none, some, String, if◌then◌else◌, ◌==◌, nat_eq,
}

pub data ReqStatus : Type 0 where
  pending scheduled prefill generate exit : ReqStatus

pub record GenerationRequest : Type 0 where
  pub req_id : String
  pub model : String
  pub input_length : ℕ
  pub output_length : ℕ
  pub arrive_at : ℕ
  pub status : ReqStatus
  pub prefill_time : Option ℕ
  pub generated_tokens : ℕ
  pub prefill_finished_at : Option ℕ
  pub generation_finished_at : Option ℕ

-- `GenerationRequest.__init__`
unfoldable pub new_request : String → String → ℕ → ℕ → ℕ → GenerationRequest
new_request id name input output at = record {
  req_id = id;
  model = name;
  input_length = input;
  output_length = output;
  arrive_at = at;
  status = pending;
  prefill_time = none;
  generated_tokens = 0;
  prefill_finished_at = none;
  generation_finished_at = none;
}

unfoldable pub set_generation_finished_at : ℕ → GenerationRequest → GenerationRequest
set_generation_finished_at t r = record r { generation_finished_at = some t }

unfoldable pub set_prefill_finished_at : ℕ → GenerationRequest → GenerationRequest
set_prefill_finished_at t r = record r { prefill_finished_at = some t; status = generate }

unfoldable pub start_prefill : GenerationRequest → GenerationRequest
start_prefill r = record r { status = prefill }

unfoldable pub stop : GenerationRequest → GenerationRequest
stop r = record r { status = exit }

-- The request after one decode step, and whether it is complete.
unfoldable pub decode : GenerationRequest → GenerationRequest × Bool
unfolding stop
decode r =
    let r' = record r { generated_tokens = r.generated_tokens + 1 } in
    if r'.generated_tokens == r.output_length then (stop r', true) else (r', false)
