-- ===== src/Runner/Tests.antt =====
-- run/runner.py on the game of Turn/Tests, with a client that loses its connection at the save.
use civ_sim_taskify.Prelude.{◌≡◌, refl, true, false, none, some, [], ◌∷◌}
use civ_sim_taskify.Errors.{err, nexus_error}
use civ_sim_taskify.Models.Run.{paused, resuming}
use civ_sim_taskify.Lifecycle.Graph.{Edge}
use civ_sim_taskify.Stop.{at_turn}
use civ_sim_taskify.Run.Actions.{failed, returned}
use civ_sim_taskify.Turn.State.{Harness, TurnCycleDependencies, raised}
use civ_sim_taskify.Turn.Tests.{deps, played_run, harness, played_run-IsValid, turn_start}
use civ_sim_taskify.Turn.Quicksave.{take_quicksave, save_name_for}
use civ_sim_taskify.Turn.Cycle.{run_turn_cycle, detect_between_turns}
use civ_sim_taskify.Saves.Headroom.{check_headroom}
use civ_sim_taskify.Runner.State.{Runner, RunnerDependencies, Request}
use civ_sim_taskify.Runner.Failures.{handle_run_failure}
use civ_sim_taskify.Runner.Play.{next_turn, play_on, play_run}
use civ_sim_taskify.Runner.Play.Recorded.{IsRecorded}
use civ_sim_taskify.Runner.Play.Rounds.{play_run-IsRecorded}
use civ_sim_taskify.Models.Run.{Run}
use civ_sim_taskify.Models.Turn.{ended_by_agent}
use civ_sim_taskify.Store.Guard.{TurnCycle}
use civ_sim_taskify.Runner.Rewind.{Rewinding, resume_from}
use civ_sim_taskify.Runner.Rewind.Keeps.{Rewinds, resume_from-Rewinds}
use civ_sim_taskify.Runner.Commands.{request_resume}
use civ_sim_taskify.Runner.Commands.Skips.{boundary, failed_turn_is_skipped, stale_pause}

abbrev lost : TurnCycleDependencies
lost = record deps { save_game = λ ds name. err nexus_error }

abbrev runner_deps : RunnerDependencies
runner_deps = record {
  stop_condition = at_turn 20;
  build_turn_dependencies = λ turn. lost;
  evaluate_stop_facts = λ ds turn. record {
    current_turn = turn;
    game_outcome = none;
    operator_stop_requested = false;
    unrecoverable = false;
  };
  requests_during = λ ds. Request.stop ∷ [];
  turn_gaps = λ ds. [];
  step_gaps = λ ds turn. [];
  attempts_fuel = 2;
  clock = λ ds n. n;
}

abbrev twelfth : Runner
twelfth = boundary played_run (some 11) none harness

play_run-IsRecorded_example :
    IsRecorded runner_deps (play_on runner_deps 3 twelfth).0 (play_run runner_deps 3 twelfth)
play_run-IsRecorded_example = play_run-IsRecorded runner_deps 3 twelfth (refl, played_run-IsValid)

abbrev after_failure : Harness
after_failure = (run_turn_cycle lost 2 played_run harness).1

fails_at_save :
    run_turn_cycle lost 2 played_run harness ≡ (failed (raised nexus_error), after_failure)
unfolding run_turn_cycle detect_between_turns take_quicksave check_headroom save_name_for
fails_at_save = refl

failed_turn_is_skipped_example :
    (s : Runner) × (v : Runner) × (play_run runner_deps 1 twelfth ≡ (returned tt, s))
    × (s.state.run.lifecycle_state ≡ paused)
    × (s.state.current_turn ≡ some 12)
    × (request_resume runner_deps s ≡ (returned true, v))
    × (next_turn v.state.current_turn ≡ 13)
failed_turn_is_skipped_example =
    failed_turn_is_skipped runner_deps played_run (some 11) none harness after_failure
      (raised nexus_error) 0 (refl, played_run-IsValid) refl refl fails_at_save

-- The recovery has raised below its limit, and the store has the run as resuming.
abbrev behind : Runner
behind = boundary played_run (some 12) none (record harness {
  store = record harness.store { run = record played_run { lifecycle_state = resuming } };
})

stale_pause_example :
    (s : Runner) × (handle_run_failure runner_deps (raised nexus_error) behind ≡ (returned tt, s))
    × (s.harness.store.run.lifecycle_state ≡ paused)
    × ¬ Edge behind.harness.store.run.lifecycle_state s.harness.store.run.lifecycle_state
stale_pause_example =
    stale_pause runner_deps (raised nexus_error) behind refl (refl, played_run-IsValid) refl

abbrev paused_run : Run
paused_run = record played_run { lifecycle_state = paused }

abbrev played_turn : TurnCycle
played_turn = record {
  turn_cycle_id = "turn-1";
  run_id = "run-1";
  turn_number = 12;
  attempt_index = 0;
  is_authoritative = true;
  save_point_id = 0;
  step_count = 2;
  outcome = ended_by_agent;
  final_no_progress_streak = 0;
  visually_degraded = false;
  started_at = 1;
  ended_at = 2;
}

-- A paused run that has one turn on record.
abbrev resting : Rewinding
resting = record {
  runner = boundary paused_run (some 12) none (record harness {
    store = record harness.store { run = paused_run; save_points = turn_start ∷ [] };
  });
  turn_cycles = played_turn ∷ [];
}

abbrev loading_deps : RunnerDependencies
loading_deps = record runner_deps { build_turn_dependencies = λ turn. deps }

resume_from-Rewinds_example :
    Rewinds loading_deps
      (λ ss. ss)
      []
      12
      resting
      (resume_from loading_deps (λ ss. ss) [] 12 resting)
resume_from-Rewinds_example = resume_from-Rewinds loading_deps (λ ss. ss) [] 12 resting (tt, tt)
