-- ===== src/Lifecycle/Tests.antt =====
-- civsim_harness/run/lifecycle.py on one run.
use civ_sim_taskify.Prelude.{◌≡◌, refl, ◌↔◌, Option, none, some, arith}
use civ_sim_taskify.Errors.{ok, err, harness_error}
use civ_sim_taskify.Models.Run.{
  StopResolution, preparing, playing, finished, victory, comparable, RecordCompletenessStatus,
  validated, Run, validate, IsValid,
}
use civ_sim_taskify.Lifecycle.{is_legal_transition, transition, transition_event, updated}
use civ_sim_taskify.Lifecycle.Graph.{Edge}
use civ_sim_taskify.Lifecycle.Transition.{IsResolved, transition-eq-ok_iff}

abbrev sample : Run
sample = record {
  run_id = "run-1";
  config_id = "config-1";
  lifecycle_state = playing;
  started_at = some 3;
  ended_at = none;
  stop_resolution = none;
  record_completeness_status = RecordCompletenessStatus.complete;
  comparability_status = comparable;
  observation_catalog_version = "1";
  action_catalog_version = "1";
  parent_run_id = none;
  parent_turn = none;
  client_identity = "client-a";
  game_build = "linux/1.0";
  game_build_acceptance_ref = none;
  host_platform = "linux";
  host_support_tier = validated;
  archived_at = none;
  capture_path = "xcomposite";
}

abbrev no_stop : Option StopResolution
no_stop = none

sample-IsValid : IsValid sample
sample-IsValid = record {
  parent_turn_positive = refl;
  finished_resolved = λ p. ground arith;
  resolved_terminal = λ p. cc;
  archived_terminal = λ p. cc;
}

sample_finishes :
    transition sample finished 9 none none (some victory)
    ≡ ok (updated sample finished 9 (some victory), transition_event sample finished 9 none none)
unfolding transition validate updated is_legal_transition transition_event
sample_finishes = refl

sample_cannot_prepare : transition sample preparing 9 none none none ≡ err harness_error
unfolding transition validate updated is_legal_transition
sample_cannot_prepare = refl

transition-eq-ok_iff_example :
    (transition sample finished 9 none none (some victory)
      ≡ ok (updated sample finished 9 (some victory), transition_event sample finished 9 none none))
    ↔ (Edge playing finished × IsResolved finished (some victory))
transition-eq-ok_iff_example =
    transition-eq-ok_iff sample finished 9 none none (some victory) sample-IsValid
