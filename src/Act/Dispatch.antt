-- ===== src/Act/Dispatch.antt =====
-- act/dispatch.py: whether one requested action may be attempted.
use civ_sim_taskify.Prelude.{String, Bool, true, false, Option, none, some}
use civ_sim_taskify.Errors.{Result, ok, err, value_error, assertion_error}
use civ_sim_taskify.Models.Run.{Timestamp}
use civ_sim_taskify.Models.Value.{Value, end}
use civ_sim_taskify.Predicate.Syntax.{Python}
use civ_sim_taskify.Predicate.Eval.{Bindings, evaluate_predicate}
use civ_sim_taskify.Predicate.Bindings.{Observation, build_predicate_bindings}
use civ_sim_taskify.Act.Registry.{
  Catalog, ParityDeclaration, DeclarationKind, LuaContext, observation, action, view, resolve,
  authorize,
}

-- models/decision.py
pub data RejectionReason : Type 0 where
  not_in_catalog unavailable_to_human_now illegal_in_context : RejectionReason
  verification_failed out_of_parity_camera : RejectionReason

pub data ExecutionOutcome : Type 0 where
  applied rejected partially_applied : ExecutionOutcome

-- The free-form `verification` mapping is left out.
pub record ActionExecution : Type 0 where
  pub outcome : ExecutionOutcome
  pub rejection_reason : Option RejectionReason
  pub verified_at : Timestamp

-- `DispatchOutcome`: its validator leaves these two shapes.
pub data DispatchOutcome : Type 0 where
  authorized : ParityDeclaration → DispatchOutcome
  refused : RejectionReason → DispatchOutcome

-- What the answer of an availability predicate means: an error is a refusal too.
abbrev pub judge : ParityDeclaration → RejectionReason → Result Bool → DispatchOutcome
judge d reason (ok true) = authorized d
judge d reason (ok false) = refused reason
judge d reason (err e) = refused reason

-- `assert declaration.availability_predicate is not None`, then the evaluation.
abbrev pub check_available :
    Python → Bindings → RejectionReason → ParityDeclaration → Option String → Result DispatchOutcome
check_available python b reason d none = err assertion_error
check_available python b reason d (some p) = ok (judge d reason (evaluate_predicate python p b))

abbrev pub in_context :
    Python → Observation → Value → Result ParityDeclaration → Result DispatchOutcome
in_context python o target (err e) = ok (refused illegal_in_context)
in_context python o target (ok d) =
    check_available python (build_predicate_bindings o target end) unavailable_to_human_now d
      d.availability_predicate

abbrev pub of_kind : DeclarationKind → Result DispatchOutcome → Result DispatchOutcome
of_kind observation rest = ok (refused not_in_catalog)
of_kind view rest = ok (refused not_in_catalog)
of_kind action rest = rest

abbrev pub resolved :
    Python
    → Catalog
    → LuaContext
    → String
    → Observation
    → Value
    → Result ParityDeclaration
    → Result DispatchOutcome
resolved python catalog context k o target (err e) = ok (refused not_in_catalog)
resolved python catalog context k o target (ok d) =
    of_kind d.kind (in_context python o target (authorize catalog k context))

unfoldable pub dispatch_action :
    Python → Catalog → LuaContext → String → Observation → Value → Result DispatchOutcome
dispatch_action python catalog context k o target =
    resolved python catalog context k o target (resolve catalog k)

unfoldable pub rejection_to_execution : DispatchOutcome → Timestamp → Result ActionExecution
rejection_to_execution (authorized d) at = err value_error
rejection_to_execution (refused reason) at =
    ok (record { outcome = rejected; rejection_reason = some reason; verified_at = at })
