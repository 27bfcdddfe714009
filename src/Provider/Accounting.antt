-- ===== src/Provider/Accounting.antt =====
-- civsim_harness/provider/accounting.py: the record of one completed call. The identifiers of the
-- call and the step are numbers; the sink's write is a parameter, and what is written is
-- returned as a list.
pub mod Counts
use civ_sim_taskify.Prelude.{
  ℕ, String, Bool, true, false, not, Option, List, [], ◌∷◌, length, ◌==◌, if◌then◌else◌,
}
use civ_sim_taskify.Errors.{
  Error, Result, ok, err, image_count_accounting_mismatch, raise_if, ◌>>=◌, ◌>>◌,
}
use civ_sim_taskify.Provider.Port.{ModelRef, CallOutcome, Cost, DecisionRequest, DecisionResponse}

-- models/records.py
pub record ModelCall : Type 0 where
  pub model_call_id : ℕ
  pub run_id : String
  pub turn_cycle_id : String
  pub decision_step_id : ℕ
  pub model_requested : ModelRef
  pub model_served : ModelRef
  pub latency_ms : ℕ
  pub cost : Cost
  pub retry_count : ℕ
  pub fallback_occurred : Bool
  pub image_count : ℕ
  pub outcome : CallOutcome

-- The identity of a call: the arguments that the record takes over.
pub record CallIdentity : Type 0 where
  pub model_call_id : ℕ
  pub run_id : String
  pub turn_cycle_id : String
  pub decision_step_id : ℕ
  pub model_requested : ModelRef

-- Every accounting field of the response is carried over as it is.
abbrev pub accounted : CallIdentity → DecisionResponse → ModelCall
accounted id response = record {
  model_call_id = id.model_call_id;
  run_id = id.run_id;
  turn_cycle_id = id.turn_cycle_id;
  decision_step_id = id.decision_step_id;
  model_requested = id.model_requested;
  model_served = response.model_served;
  latency_ms = response.latency_ms;
  cost = response.cost;
  retry_count = response.retry_count;
  fallback_occurred = response.fallback_occurred;
  image_count = response.image_count;
  outcome = response.outcome;
}

unfoldable pub build_model_call :
    CallIdentity → DecisionRequest → DecisionResponse → Result ModelCall
build_model_call id request response = do
  raise_if (not (response.image_count == length request.images)) image_count_accounting_mismatch
  ok (accounted id response)

-- `sink.write_model_call(call)`, then the call.
abbrev pub written : (ModelCall → Result ℕ) → Result ModelCall → Result ModelCall × List ModelCall
written write (err e) = (err e, [])
written write (ok call) = (write call >>= λ _. ok call, call ∷ [])

unfoldable pub record_model_call :
    (ModelCall → Result ℕ)
    → CallIdentity
    → DecisionRequest
    → DecisionResponse
    → Result ModelCall × List ModelCall
record_model_call write id request response = written write (build_model_call id request response)
