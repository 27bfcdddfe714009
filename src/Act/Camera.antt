-- ===== src/Act/Camera.antt =====
-- act/camera.py: camera requests, judged by their own predicate with only the target bound.
use civ_sim_taskify.Prelude.{String, Bool, true, false, not, ◌&&◌, ◌||◌, str_eq, if◌then◌else◌}
use civ_sim_taskify.Errors.{Result, ok, err, ◌>>=◌}
use civ_sim_taskify.Models.Value.{Value, end, field}
use civ_sim_taskify.Predicate.Syntax.{Python}
use civ_sim_taskify.Predicate.Eval.{Bindings}
use civ_sim_taskify.Predicate.Bindings.{Observation}
use civ_sim_taskify.Act.Registry.{Catalog, ParityDeclaration, in_game, resolve}
use civ_sim_taskify.Act.Dispatch.{
  DispatchOutcome, refused, not_in_catalog, illegal_in_context, out_of_parity_camera,
  check_available, dispatch_action,
}

-- CAMERA_ACTION_DECLARATION_IDS
unfoldable pub is_camera_action : String → Bool
is_camera_action k =
    str_eq k "camera.move" || (str_eq k "camera.zoom" || str_eq k "camera.set_view_mode")

abbrev pub camera_bindings : Value → Bindings
camera_bindings target = field "target" target end

abbrev pub camera_resolved : Python → Value → Result ParityDeclaration → Result DispatchOutcome
camera_resolved python target (err e) = ok (refused not_in_catalog)
camera_resolved python target (ok d) =
    check_available python (camera_bindings target) out_of_parity_camera d d.availability_predicate

unfoldable pub validate_camera_action : Python → Catalog → String → Value → Result DispatchOutcome
validate_camera_action python catalog k target =
    if is_camera_action k
    then camera_resolved python target (resolve catalog k)
    else ok (refused not_in_catalog)

-- The rejection reasons that the decision loop leaves to the generic dispatch.
abbrev pub settled : DispatchOutcome → Bool
settled (refused not_in_catalog) = true
settled (refused illegal_in_context) = true
settled o = false

-- run/decision_loop.py: the camera's own check, layered on the outcome of `dispatch_action`.
unfoldable pub recheck_camera :
    Python → Catalog → String → Value → DispatchOutcome → Result DispatchOutcome
recheck_camera python catalog k target o =
    if is_camera_action k && not (settled o)
    then validate_camera_action python catalog k target
    else ok o

-- The decision loop's outcome for one requested action.
unfoldable pub dispatch_decision :
    Python → Catalog → String → Observation → Value → Result DispatchOutcome
dispatch_decision python catalog k o target = do
  outcome ← dispatch_action python catalog in_game k o target
  recheck_camera python catalog k target outcome
