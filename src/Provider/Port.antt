-- ===== src/Provider/Port.antt =====
-- civsim_harness/provider/port.py and the model references of models/common.py.
use civ_sim_taskify.Prelude.{ℕ, String, Bool, Option, List}
use civ_sim_taskify.Models.Value.{Fields}

pub record ModelRef : Type 0 where
  pub provider : String
  pub model : String

pub data CallOutcome : Type 0 where
  decision_returned empty_response call_failed rate_limited context_rejected : CallOutcome

pub record Image : Type 0 where
  pub media_type : String
  pub bytes : List ℕ

pub record RawDecision : Type 0 where
  pub action_declaration_id : String
  pub reasoning : String
  pub parameters : Fields
  pub is_end_turn : Bool
  pub prompt_type : Option String

-- The expected shape of the response is a constant and is left out.
pub record DecisionRequest : Type 0 where
  pub model : ModelRef
  pub system : String
  pub observation : String
  pub images : List Image
  pub step_index : ℕ

pub record Cost : Type 0 where
  pub input_tokens : Option ℕ
  pub output_tokens : Option ℕ
  pub total_tokens : Option ℕ
  pub amount_usd : Option String

pub record DecisionResponse : Type 0 where
  pub decision : Option RawDecision
  pub model_served : ModelRef
  pub latency_ms : ℕ
  pub cost : Cost
  pub retry_count : ℕ
  pub fallback_occurred : Bool
  pub image_count : ℕ
  pub outcome : CallOutcome
