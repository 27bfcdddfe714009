-- ===== src/Store/Record.antt =====
-- store/port.py: what the store accepts as the record of one attempt at a turn.
pub mod Accepted
use civ_sim_taskify.Prelude.{
  ℕ, String, Bool, true, false, not, ◌&&◌, ◌||◌, Option, none, some, List, [], ◌∷◌, ltb, leb,
  length, ◌==◌, str_eq, if◌then◌else◌,
}
use civ_sim_taskify.Errors.{
  Error, Result, ok, err, value_error, validation_error, raise_if, ◌>>=◌, ◌>>◌,
}
use civ_sim_taskify.Run.LoopState.{DecisionStepBundle}

-- `_cross_record_consistency`
unfoldable pub validate_bundle : DecisionStepBundle → Result DecisionStepBundle
validate_bundle b = do
  raise_if
      (not (
        (b.observation.decision_step_id == b.step.decision_step_id)
        && ((b.decision.decision_step_id == b.step.decision_step_id)
            && (b.model_call.decision_step_id == b.step.decision_step_id))))
      value_error
  raise_if (not (b.decision.model_call_id == b.model_call.model_call_id)) value_error
  ok b

-- The part of `TurnCycle` that the validator of the record reads, and the steps.
pub record TurnCycleRecord : Type 0 where
  pub turn_cycle_id : String
  pub step_count : ℕ
  pub steps : List DecisionStepBundle

abbrev pub not_after : Option ℕ → ℕ → Bool
not_after none i = false
not_after (some before) i = leb i before

-- The loop of `_steps_belong_and_are_ordered`.
unfoldable pub check_order : String → Option ℕ → List DecisionStepBundle → Result (Unit {0})
check_order cycle before [] = ok tt
check_order cycle before (b ∷ bs) = do
  raise_if (not (str_eq b.step.turn_cycle_id cycle)) value_error
  raise_if (not_after before b.step.step_index) value_error
  check_order cycle (some b.step.step_index) bs

-- The bounds of the fields, and the validator.
unfoldable pub validate_record : TurnCycleRecord → Result TurnCycleRecord
unfolding check_order
validate_record r = do
  raise_if (ltb r.step_count 1 || ltb (length r.steps) 1) validation_error
  check_order r.turn_cycle_id none r.steps
  raise_if (not (r.step_count == length r.steps)) value_error
  ok r

-- Every bundle is constructed before the record.
unfoldable pub validate_bundles : List DecisionStepBundle → Result (Unit {0})
unfolding validate_bundle
validate_bundles [] = ok tt
validate_bundles (b ∷ bs) = do c ← validate_bundle b; validate_bundles bs
