-- ===== src/Agent/Decisions.antt =====
-- agent/decisions.py and models/decision.py: from a model's answer to a recorded decision. The JSON
-- parser and the test for a blank text are parameters.
pub mod Shape
use civ_sim_taskify.Prelude.{
  ℕ, String, Bool, true, false, not, ◌&&◌, ◌||◌, Option, none, some, if◌then◌else◌,
}
use civ_sim_taskify.Errors.{
  Error, Result, ok, err, multiple_decisions_error, validation_error, raise_if, ◌>>=◌, ◌>>◌,
}
use civ_sim_taskify.Models.Run.{is_some, is_none}
use civ_sim_taskify.Models.Value.{
  Value, null, bool, num, text, arr, obj, Items, nil, cons, Fields, end, field,
}
use civ_sim_taskify.Predicate.Values.{get_field}
use civ_sim_taskify.Provider.Port.{RawDecision}
use civ_sim_taskify.Act.Dispatch.{ActionExecution}

-- `json.loads`, where `none` is its error, and `not s.strip()`.
pub record Json : Type 0 where
  pub loads : String → Option Value
  pub is_blank : String → Bool

-- A text that is not blank.
abbrev pub some_text : Json → Option Value → Option String
some_text json (some (text s)) = if json.is_blank s then none else some s
some_text json v = none

abbrev pub mapping_or_empty : Option Value → Option Fields
mapping_or_empty none = some end
mapping_or_empty (some (obj fs)) = some fs
mapping_or_empty (some v) = none

abbrev pub flag_or_false : Option Value → Option Bool
flag_or_false none = some false
flag_or_false (some (bool b)) = some b
flag_or_false (some v) = none

abbrev pub text_or_none : Option Value → Option (Option String)
text_or_none none = some none
text_or_none (some null) = some none
text_or_none (some (text s)) = some (some s)
text_or_none (some v) = none

abbrev pub with_parts :
    Option String
    → Option String
    → Option Fields
    → Option Bool
    → Option (Option String)
    → Option RawDecision
with_parts (some id) (some reasoning) (some parameters) (some is_end) (some prompt) = some (record {
  action_declaration_id = id;
  reasoning = reasoning;
  parameters = parameters;
  is_end_turn = is_end;
  prompt_type = prompt;
})
with_parts id reasoning parameters is_end prompt = none

-- `_as_decision`
unfoldable pub as_decision : Json → Value → Option RawDecision
as_decision json (obj fs) =
    with_parts (some_text json (get_field fs "action_declaration_id"))
      (some_text json (get_field fs "reasoning")) (mapping_or_empty (get_field fs "parameters"))
      (flag_or_false (get_field fs "is_end_turn")) (text_or_none (get_field fs "prompt_type"))
as_decision json v = none

abbrev pub from_parsed : Json → Option Value → Result (Option RawDecision)
from_parsed json none = ok none
from_parsed json (some null) = ok none
from_parsed json (some (arr nil)) = ok none
from_parsed json (some (arr (cons v nil))) = ok (as_decision json v)
from_parsed json (some (arr (cons v (cons w vs)))) = err multiple_decisions_error
from_parsed json (some v) = ok (as_decision json v)

abbrev pub from_content : Json → Option String → Result (Option RawDecision)
from_content json none = ok none
from_content json (some s) = if json.is_blank s then ok none else from_parsed json (json.loads s)

unfoldable pub parse_decision : Json → Option String → Result (Option RawDecision)
unfolding as_decision
parse_decision json content = from_content json content

pub data DecisionTrigger : Type 0 where
  proactive prompt_response : DecisionTrigger

-- Identifiers are numbers here.
pub record Decision : Type 0 where
  pub decision_id : ℕ
  pub decision_step_id : ℕ
  pub action_declaration_id : String
  pub parameters : Fields
  pub reasoning : String
  pub trigger : DecisionTrigger
  pub prompt_type : Option String
  pub is_end_turn : Bool
  pub model_call_id : ℕ
  pub execution : ActionExecution

abbrev pub is_response : DecisionTrigger → Bool
is_response proactive = false
is_response prompt_response = true

-- `_prompt_type_matches_trigger`
unfoldable pub validate_decision : Decision → Result Decision
validate_decision d = do
  raise_if (is_response d.trigger && is_none d.prompt_type) validation_error
  raise_if (not (is_response d.trigger) && is_some d.prompt_type) validation_error
  ok d

unfoldable pub build_decision :
    RawDecision → ℕ → ℕ → ℕ → DecisionTrigger → ActionExecution → Result Decision
unfolding validate_decision
build_decision raw decision_id step_id call_id trigger execution = validate_decision (record {
  decision_id = decision_id;
  decision_step_id = step_id;
  action_declaration_id = raw.action_declaration_id;
  parameters = raw.parameters;
  reasoning = raw.reasoning;
  trigger = trigger;
  prompt_type = raw.prompt_type;
  is_end_turn = raw.is_end_turn;
  model_call_id = call_id;
  execution = execution;
})
