-- ===== src/Resilience/Recovery/Tests.antt =====
-- civsim_harness/resilience/recovery.py with a loader that works and one that fails.
use civ_sim_taskify.Prelude.{◌<◌, ℕ, ◌≡◌, refl, inr, true, false, some, none, [], ◌∷◌, arith}
use civ_sim_taskify.Errors.{
  Result, ok, err, nexus_error, recovery_limit_reached, save_addressing_error, file_not_found,
}
use civ_sim_taskify.Models.Run.{
  Run, resuming, playing, failed, validated, comparable, RecordCompletenessStatus, IsValid,
  validate, LifecycleState, unrecoverable_failure,
}
use civ_sim_taskify.Lifecycle.{transition, is_legal_transition, updated}
use civ_sim_taskify.Resilience.Recovery.{
  SavePoint, World, RecoveryResult, retained, recover, ensure_interrupted_and_resuming,
  write_run_event, update_state,
}
use civ_sim_taskify.Resilience.Recovery.Outcomes.{HasResumed, in_play, recover_resumes}
use civ_sim_taskify.Resilience.Recovery.Missing.{recover_missing}
use civ_sim_taskify.Resilience.Recovery.Retry.{recover_fails}
use civ_sim_taskify.Resilience.Recovery.Limit.{retry, retry_fails}

abbrev run_in : LifecycleState → Run
run_in state = record {
  run_id = "run-1";
  config_id = "config-1";
  lifecycle_state = state;
  started_at = some 3;
  ended_at = none;
  stop_resolution = none;
  record_completeness_status = RecordCompletenessStatus.complete;
  comparability_status = comparable;
  observation_catalog_version = "1";
  action_catalog_version = "1";
  parent_run_id = none;
  parent_turn = none;
  client_identity = "client-a";
  game_build = "linux/1.0";
  game_build_acceptance_ref = none;
  host_platform = "linux";
  host_support_tier = validated;
  archived_at = none;
  capture_path = "xcomposite";
}

abbrev turn_start : SavePoint
turn_start = record {
  save_point_id = 4;
  run_id = "run-1";
  turn_number = 12;
  save_name = "run-1-12";
  taken_at = 5;
  verified = true;
  retention_status = retained;
  missing = false;
}

abbrev world_in : LifecycleState → ℕ → World
world_in state failures = record {
  consecutive_failures = failures;
  run = run_in state;
  events = [];
  save_points = [];
}

abbrev works : SavePoint → Result (Unit {0})
works save = ok tt

abbrev lost : SavePoint → Result (Unit {0})
lost save = err file_not_found

abbrev broken : SavePoint → Result (Unit {0})
broken save = err nexus_error

playing-IsValid : IsValid (run_in playing)
playing-IsValid = record {
  parent_turn_positive = refl;
  finished_resolved = λ p. ground arith;
  resolved_terminal = λ p. cc;
  archived_terminal = λ p. cc;
}

resuming-IsValid : IsValid (run_in resuming)
resuming-IsValid = record {
  parent_turn_positive = refl;
  finished_resolved = λ p. ground arith;
  resolved_terminal = λ p. cc;
  archived_terminal = λ p. cc;
}

abbrev back : RecoveryResult
back = record {
  run = run_in playing;
  resumed_from = turn_start;
  events = (recover 12 9 3 works (run_in playing) turn_start (world_in playing 1)).1.events;
}

recovered :
    recover 12 9 3 works (run_in playing) turn_start (world_in playing 1)
    ≡ (ok back, (recover 12 9 3 works (run_in playing) turn_start (world_in playing 1)).1)
unfolding recover ensure_interrupted_and_resuming write_run_event update_state transition validate
    updated is_legal_transition
recovered = refl

recover_resumes_example :
    HasResumed 12 9 3 works turn_start back
      (recover 12 9 3 works (run_in playing) turn_start (world_in playing 1)).1
recover_resumes_example =
    recover_resumes 12 9 3 works turn_start (run_in playing) (world_in playing 1) back
      (recover 12 9 3 works (run_in playing) turn_start (world_in playing 1)).1 recovered

retry_fails_example :
    ((retry 12 9 3 broken turn_start 2 (world_in resuming 1)).0
      ≡ err nexus_error ∷ err recovery_limit_reached ∷ [])
    × ((retry 12 9 3 broken turn_start 2 (world_in resuming 1)).1.run.lifecycle_state ≡ failed)
    × ((retry 12 9 3 broken turn_start 2 (world_in resuming 1)).1.run.stop_resolution
        ≡ some unrecoverable_failure)
retry_fails_example =
    retry_fails 12 9 3 broken turn_start nexus_error refl refl refl refl 1 (world_in resuming 1)
      resuming-IsValid refl refl

recover_missing_example :
    ((recover 12 9 3 lost (run_in playing) turn_start (world_in playing 1)).0
      ≡ err save_addressing_error)
    × ((recover 12 9 3 lost (run_in playing) turn_start (world_in playing 1)).1.run.lifecycle_state
        ≡ failed)
    × ((recover 12 9 3 lost (run_in playing) turn_start (world_in playing 1)).1.consecutive_failures
        ≡ 1)
recover_missing_example =
    recover_missing 12 9 3 lost (run_in playing) turn_start (world_in playing 1) playing-IsValid
      in_play refl (inr refl)

second_failure : 2 < 3
second_failure = omega arith

recover_fails_example :
    ((recover 12 9 3 broken (run_in playing) turn_start (world_in playing 1)).0 ≡ err nexus_error)
    × ((recover 12 9 3 broken
          (run_in playing)
          turn_start
          (world_in playing 1)).1.run.lifecycle_state
        ≡ resuming)
    × IsValid (recover 12 9 3 broken (run_in playing) turn_start (world_in playing 1)).1.run
    × ((recover 12 9 3 broken
          (run_in playing)
          turn_start
          (world_in playing 1)).1.consecutive_failures
        ≡ 2)
recover_fails_example =
    recover_fails 12 9 3 broken turn_start nexus_error (run_in playing) (world_in playing 1)
      playing-IsValid in_play refl refl refl refl refl second_failure
