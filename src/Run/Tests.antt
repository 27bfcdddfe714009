-- ===== src/Run/Tests.antt =====
-- run/decision_loop.py on a catalog of one view and one action. The provider first asks for an
-- action that the catalog does not have and then ends the turn.
use civ_sim_taskify.Prelude.{
  ℕ, suc, ◌≡◌, refl, true, false, Option, none, some, List, [], ◌∷◌, ◌==◌, if◌then◌else◌, length,
  arith,
}
use civ_sim_taskify.Errors.{ok, err, value_error}
use civ_sim_taskify.Models.Run.{Run}
use civ_sim_taskify.Models.Run
use civ_sim_taskify.Models.Value.{null, nil, end}
use civ_sim_taskify.Models.Turn.{TurnOutcome, ended_by_agent}
use civ_sim_taskify.Provider.Port.{
  ModelRef, RawDecision, DecisionRequest, DecisionResponse, decision_returned,
}
use civ_sim_taskify.Predicate.Syntax.{Python}
use civ_sim_taskify.Act.Registry.{ParityDeclaration, in_game, action, view}
use civ_sim_taskify.Observe.Capture.{Attempted, clean}
use civ_sim_taskify.Run.Actions.{Outcome, failed, returned}
use civ_sim_taskify.Run.LoopState.{
  Call, asked, Live, DecisionLoopContext, DecisionLoopResult, Failure,
}
use civ_sim_taskify.Run.DecisionLoop.{rounds}
use civ_sim_taskify.Run.Step.{round, prepare, ask, carry_out, conclude, run_forbidden_literals}
use civ_sim_taskify.Run.FreshRead.{
  observe_or_wrap, observe, resolve_trigger, step_images, as_shown, images_permitted_for_run,
}
use civ_sim_taskify.Observe.Capture.{capture_for_step, last_attempt, attempts, wire_media_type}
use civ_sim_taskify.Models.Turn.{validate_capture}
use civ_sim_taskify.Observe.Assemble.{assemble_observation, all_entries}
use civ_sim_taskify.Agent.Context.{select_screened_images, assemble_context}
use civ_sim_taskify.Act.Registry.{resolve, authorize}
use civ_sim_taskify.Parity.Forbidden.{
  enforce_parity_boundary, scan_observation_entries, scan_entries, find_literal_leaks,
}
use civ_sim_taskify.Predicate.Symbols.{starts_with, unknown_predicate_symbols}
use civ_sim_taskify.Provider.Accounting.{build_model_call}
use civ_sim_taskify.Act.Camera.{dispatch_decision, recheck_camera, is_camera_action}
use civ_sim_taskify.Act.Dispatch.{dispatch_action, rejection_to_execution}
use civ_sim_taskify.Predicate.Eval.{evaluate_predicate}
use civ_sim_taskify.Predicate.Syntax.{parse}
use civ_sim_taskify.NoProgress.{record_progress, tripped, new_tracker}
use civ_sim_taskify.Agent.Decisions.{build_decision, validate_decision}
use civ_sim_taskify.Predicate.Values.{get_field}
use civ_sim_taskify.Run.DecisionLoop.{run_decision_loop}
use civ_sim_taskify.Run.DecisionLoop.Exits.{Progresses, run_decision_loop-ends}
use civ_sim_taskify.Run.DecisionLoop.Trace.{Sound, Settled, run_decision_loop-Sound}
use civ_sim_taskify.Store.Record.Accepted.{Written, run_decision_loop-Written}
use civ_sim_taskify.Run.DecisionLoop.Comparability.{IsRunKept, run_decision_loop-IsRunKept}
use civ_sim_taskify.Models.Run.{Timestamp}

abbrev end_turn : ParityDeclaration
end_turn = record {
  declaration_id = "turn.end";
  kind = action;
  context = in_game;
  capability_id = "turn";
  availability_predicate = some "target";
  verification_predicate = some "target";
  output_schema = none;
}

abbrev main_view : ParityDeclaration
main_view = record end_turn { declaration_id = "view.main"; kind = view }

abbrev model : ModelRef
model = record { provider = "a"; model = "large" }

abbrev requests : List Call → ℕ
requests [] = 0
requests (asked r ∷ cs) = suc (requests cs)
requests (c ∷ cs) = requests cs

abbrev wait : RawDecision
wait = record {
  action_declaration_id = "turn.wait";
  reasoning = "nothing to do";
  parameters = end;
  is_end_turn = false;
  prompt_type = none;
}

abbrev finish : RawDecision
finish = record wait { action_declaration_id = "turn.end"; is_end_turn = true }

abbrev answer : RawDecision → DecisionRequest → DecisionResponse
answer raw request = record {
  decision = some raw;
  model_served = model;
  latency_ms = 5;
  cost = record {
    input_tokens = none;
    output_tokens = none;
    total_tokens = none;
    amount_usd = none;
  };
  retry_count = 0;
  fallback_occurred = false;
  image_count = length request.images;
  outcome = decision_returned;
}

abbrev frame : Attempted
frame = record {
  capture_path = "xcomposite";
  frame = some (record { image_bytes = 7 ∷ []; image_format = "PNG" });
  outcome = clean;
}

abbrev python : Python
python = record { ast_parse = λ s. err value_error; getattr = λ v a. null }

abbrev pub ctx : DecisionLoopContext
ctx = record {
  run_id = "run-1";
  turn_number = 12;
  turn_cycle_id = "turn-1";
  catalog = record { declarations = ("turn.end", end_turn) ∷ ("view.main", main_view) ∷ [] };
  catalog_version = "1";
  model = model;
  guidance = none;
  no_progress_step_limit = 3;
  view_declaration_id = "view.main";
  read_observation_inputs = λ cs. ok ([], "world");
  window_resolved = λ cs. true;
  camera_state = λ cs. ok end;
  attempt_once = λ cs camera k. frame;
  complete = λ cs r. ok (answer (if requests cs == 0 then wait else finish) r);
  execute_action = λ cs k ps t. ok tt;
  clock = λ cs k. length cs;
  texts = record { role_text = "play"; dumps = λ v. "" };
  coercions = record { str = λ v. ""; tuple = λ v. ok nil };
  python = python;
  strip = λ s. s;
  upper = λ s. s;
  sha256 = λ bytes. "digest";
}

-- A context in which the turn is never ended.
abbrev waiting : DecisionLoopContext
waiting = record ctx { complete = λ cs r. ok (answer wait r) }

abbrev pub host_run : Run
host_run = record {
  run_id = "run-1";
  config_id = "config-1";
  lifecycle_state = Run.waiting_on_model;
  started_at = some 3;
  ended_at = none;
  stop_resolution = none;
  record_completeness_status = Run.complete;
  comparability_status = Run.comparable;
  observation_catalog_version = "1";
  action_catalog_version = "1";
  parent_run_id = none;
  parent_turn = none;
  client_identity = "client-b";
  game_build = "linux/1.0";
  game_build_acceptance_ref = none;
  host_platform = "linux";
  host_support_tier = Run.validated;
  archived_at = none;
  capture_path = "xcomposite";
}

abbrev live : Live
live = record { calls = []; run = some host_run }

abbrev outcome_of : Outcome Failure DecisionLoopResult × Live → Option TurnOutcome
outcome_of (returned r, s) = some r.outcome
outcome_of (failed f, s) = none

ends_the_turn : outcome_of (run_decision_loop ctx 2 live) ≡ some ended_by_agent
unfolding run_decision_loop rounds round prepare ask carry_out conclude observe_or_wrap observe
    resolve_trigger capture_for_step last_attempt attempts wire_media_type validate_capture
    assemble_observation all_entries step_images as_shown select_screened_images resolve
    assemble_context enforce_parity_boundary scan_observation_entries scan_entries
    find_literal_leaks run_forbidden_literals starts_with build_model_call dispatch_decision
    dispatch_action authorize recheck_camera is_camera_action evaluate_predicate
    unknown_predicate_symbols parse rejection_to_execution record_progress tripped build_decision
    validate_decision new_tracker images_permitted_for_run get_field
ends_the_turn = refl

run_decision_loop-Sound_example :
    Sound ctx (images_permitted_for_run (some host_run)) ((run_decision_loop ctx 2 live).1.calls)
    × Settled ((run_decision_loop ctx 2 live).1.calls)
run_decision_loop-Sound_example = run_decision_loop-Sound ctx 2 (some host_run)

run_decision_loop-IsRunKept_example :
    IsRunKept (some host_run) ((run_decision_loop ctx 2 live).1.run)
run_decision_loop-IsRunKept_example = run_decision_loop-IsRunKept ctx 2 live

run_decision_loop-ends_example : Progresses waiting 2 (run_decision_loop waiting 2 live)
run_decision_loop-ends_example = run_decision_loop-ends waiting 2 live (omega arith)

run_decision_loop-Written_example : Written ctx (run_decision_loop ctx 2 live)
run_decision_loop-Written_example = run_decision_loop-Written ctx 2 live
