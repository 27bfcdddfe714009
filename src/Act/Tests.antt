-- ===== src/Act/Tests.antt =====
-- civsim_harness/act/dispatch.py and act/camera.py on a catalog of one camera action.
use civ_sim_taskify.Prelude.{◌≡◌, refl, ◌↔◌, true, false, some, [], ◌∷◌, str_eq, if◌then◌else◌}
use civ_sim_taskify.Errors.{ok, err, value_error}
use civ_sim_taskify.Models.Value.{null, bool}
use civ_sim_taskify.Predicate.Symbols.{unknown_predicate_symbols}
use civ_sim_taskify.Predicate.Values.{get_field, truthy}
use civ_sim_taskify.Predicate.Syntax.{Python, name, parse, allowed}
use civ_sim_taskify.Predicate.Eval.{evaluate_predicate, eval_node, resolve_name}
use civ_sim_taskify.Predicate.Bindings.{Observation, build_predicate_bindings, observation_index}
use civ_sim_taskify.Act.Registry.{
  Catalog, ParityDeclaration, in_game, game_core_tuner, action, resolve, authorize,
}
use civ_sim_taskify.Act.Dispatch.{
  authorized, refused, illegal_in_context, out_of_parity_camera, dispatch_action,
}
use civ_sim_taskify.Models.Turn.{changed_state}
use civ_sim_taskify.Act.Registry.{
  CapabilityResult, observation, filter_to_entries, resolve_observable,
}
use civ_sim_taskify.Act.Dispatch.{RejectionReason, applied}
use civ_sim_taskify.Act.Verify.{verify_execution, observed_snapshot}
use civ_sim_taskify.Act.Verification.{IsConfirmed, verify_execution_confirms}
use civ_sim_taskify.Prelude.{Option, none}
use civ_sim_taskify.Act.Camera.{
  is_camera_action, validate_camera_action, recheck_camera, dispatch_decision,
}
use civ_sim_taskify.Act.Authorization.{
  IsAvailable, dispatch_action-authorized_iff, dispatch_decision-authorized,
}

abbrev no_reason : Option RejectionReason
no_reason = none

abbrev python : Python
python = record {
  ast_parse = λ s. if str_eq s "target" then ok (name "target") else err value_error;
  getattr = λ v a. null;
}

abbrev move : ParityDeclaration
move = record {
  declaration_id = "camera.move";
  kind = action;
  context = in_game;
  capability_id = "camera";
  availability_predicate = some "target";
  verification_predicate = some "target";
  output_schema = none;
}

abbrev catalog : Catalog
catalog = record { declarations = ("camera.move", move) ∷ [] }

abbrev seen : Observation
seen = record {
  observation_id = 1;
  decision_step_id = 1;
  assembled_at = 0;
  catalog_version = "1";
  entries = [];
  captures = [];
  screen_identity = "world";
}

move_authorized :
    dispatch_action python catalog in_game "camera.move" seen (bool true) ≡ ok (authorized move)
unfolding dispatch_action resolve authorize evaluate_predicate unknown_predicate_symbols parse
    allowed eval_node resolve_name get_field truthy build_predicate_bindings
move_authorized = refl

move_decided :
    dispatch_decision python catalog "camera.move" seen (bool true) ≡ ok (authorized move)
unfolding dispatch_decision dispatch_action resolve authorize evaluate_predicate
    unknown_predicate_symbols parse allowed eval_node resolve_name get_field truthy
    build_predicate_bindings recheck_camera is_camera_action validate_camera_action
move_decided = refl

hidden_plot_refused :
    dispatch_decision python catalog "camera.move" seen (bool false)
    ≡ ok (refused out_of_parity_camera)
unfolding dispatch_decision dispatch_action resolve authorize evaluate_predicate
    unknown_predicate_symbols parse allowed eval_node resolve_name get_field truthy
    build_predicate_bindings recheck_camera is_camera_action validate_camera_action
hidden_plot_refused = refl

wrong_context_refused :
    dispatch_action python catalog game_core_tuner "camera.move" seen (bool true)
    ≡ ok (refused illegal_in_context)
unfolding dispatch_action resolve authorize
wrong_context_refused = refl

dispatch_action-authorized_iff_example :
    (dispatch_action python catalog in_game "camera.move" seen (bool true) ≡ ok (authorized move))
    ↔ IsAvailable python catalog "camera.move" seen (bool true) in_game move
dispatch_action-authorized_iff_example =
    dispatch_action-authorized_iff python catalog "camera.move" seen (bool true) in_game move

dispatch_decision-authorized_example :
    dispatch_action python catalog in_game "camera.move" seen (bool true) ≡ ok (authorized move)
dispatch_decision-authorized_example =
    dispatch_decision-authorized python catalog "camera.move" seen (bool true) move move_decided

move_verified :
    verify_execution python move seen seen (bool true) 8
    ≡ ok (record {
      execution = record { outcome = applied; rejection_reason = none; verified_at = 8 };
      progress = changed_state;
    })
unfolding verify_execution evaluate_predicate unknown_predicate_symbols parse allowed eval_node
    resolve_name get_field truthy build_predicate_bindings observed_snapshot observation_index
move_verified = refl

verify_execution_confirms_example :
    ((applied ≡ applied) ↔ IsConfirmed python move seen seen (bool true))
    × ((changed_state ≡ changed_state) ↔ IsConfirmed python move seen seen (bool true))
    × ((no_reason ≡ none) ↔ IsConfirmed python move seen seen (bool true))
verify_execution_confirms_example =
    verify_execution_confirms python move seen seen (bool true) 8
      (record {
        execution = record { outcome = applied; rejection_reason = none; verified_at = 8 };
        progress = changed_state;
      })
      move_verified

abbrev screen : ParityDeclaration
screen = record move { declaration_id = "game.screen_state"; kind = observation }

abbrev seen_screen : CapabilityResult
seen_screen = record { declaration_id = "game.screen_state"; value = bool true }

abbrev screens : Catalog
screens = record { declarations = ("game.screen_state", screen) ∷ ("camera.move", move) ∷ [] }

screen_filtered :
    filter_to_entries screens seen_screen
    ≡ ok (
        record {
          declaration_id = "game.screen_state";
          key = "game.screen_state";
          value = bool true;
          context = in_game;
        }
        ∷ [])
unfolding filter_to_entries resolve_observable resolve
screen_filtered = refl
