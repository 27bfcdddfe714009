-- ===== src/Act/Verify.antt =====
-- act/verify.py: what an executed action did, by the state that was read back.
use civ_sim_taskify.Prelude.{String, Bool, true, Option, none, some}
use civ_sim_taskify.Errors.{Result, ok, err, assertion_error}
use civ_sim_taskify.Models.Run.{Timestamp}
use civ_sim_taskify.Models.Value.{Value, null, obj, Fields, end}
use civ_sim_taskify.Models.Turn.{StepProgress, changed_state}
use civ_sim_taskify.Models.Turn
use civ_sim_taskify.Predicate.Values.{get_field, set_field}
use civ_sim_taskify.Predicate.Syntax.{Python}
use civ_sim_taskify.Predicate.Eval.{evaluate_predicate}
use civ_sim_taskify.Predicate.Bindings.{Observation, build_predicate_bindings}
use civ_sim_taskify.Act.Registry.{ParityDeclaration}
use civ_sim_taskify.Act.Dispatch.{ActionExecution, applied, rejected, verification_failed}

abbrev field_of : Fields → String → Option Value → Fields
field_of snapshot name none = snapshot
field_of snapshot name (some v) = set_field snapshot name v

abbrev field_in : Option Value → String → Option Value
field_in (some (obj fs)) k = get_field fs k
field_in v k = none

-- `observed_snapshot`, with the two rows of `_OBSERVED_FIELD_SOURCES`.
unfoldable pub observed_snapshot : Observation → Fields
observed_snapshot pre =
    let b = build_predicate_bindings pre null end in
    field_of (field_of end "observed_turn_number" (field_in (get_field b "game") "turn_number"))
      "observed_diplomatic_favor" (field_in (get_field b "player") "diplomatic_favor")

pub record ExecutionVerification : Type 0 where
  pub execution : ActionExecution
  pub progress : StepProgress

abbrev pub verdict : Timestamp → Result Bool → ExecutionVerification
verdict at (ok true) = record {
  execution = record { outcome = applied; rejection_reason = none; verified_at = at };
  progress = changed_state;
}
verdict at v = record {
  execution = record {
    outcome = rejected;
    rejection_reason = some verification_failed;
    verified_at = at;
  };
  progress = Turn.rejected;
}

abbrev pub check_verified :
    Python
    → Observation
    → Observation
    → Value
    → Timestamp
    → Option String
    → Result ExecutionVerification
check_verified python pre post target at none = err assertion_error
check_verified python pre post target at (some p) = ok (
    verdict at
      (evaluate_predicate python p (build_predicate_bindings post target (observed_snapshot pre))))

unfoldable pub verify_execution :
    Python
    → ParityDeclaration
    → Observation
    → Observation
    → Value
    → Timestamp
    → Result ExecutionVerification
verify_execution python d pre post target at =
    check_verified python pre post target at d.verification_predicate
