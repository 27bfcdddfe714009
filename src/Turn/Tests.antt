-- ===== src/Turn/Tests.antt =====
-- run/turn_cycle.py on the game of Run/Tests: one with a save that can be verified, and one that is
-- never read.
use civ_sim_taskify.Prelude.{◌+◌, ◌≡◌, refl, true, false, none, some, List, [], arith}
use civ_sim_taskify.Errors.{ok, err, observation_assembly_error}
use civ_sim_taskify.Models.Run.{Run, playing, IsValid}
use civ_sim_taskify.Resilience.Recovery.{SavePoint, retained}
use civ_sim_taskify.Run.Actions.{failed, Ends}
use civ_sim_taskify.Run.LoopState.{DecisionLoopContext}
use civ_sim_taskify.Run.Tests.{ctx, host_run}
use civ_sim_taskify.Run.DecisionLoop.{run_decision_loop}
use civ_sim_taskify.Run.FreshRead.{observe_or_wrap, observe, images_permitted_for_run}
use civ_sim_taskify.NoProgress.{new_tracker}
use civ_sim_taskify.Turn.State.{
  Deed, Harness, DetectionWatch, TurnCycleDependencies, still_replaying,
}
use civ_sim_taskify.Turn.Quicksave.{take_quicksave}
use civ_sim_taskify.Turn.Quicksave.Reports.{Reports, take_quicksave-Reports}
use civ_sim_taskify.Turn.Detection.{watch_passes}
use civ_sim_taskify.Turn.Detection.Sustained.{zombie, Found, watch_passes-Found}
use civ_sim_taskify.Turn.Attempts.{attempts}
use civ_sim_taskify.Turn.Attempts.Blind.{IsBlind, attempts-Blind}
use civ_sim_taskify.Turn.Cycle.{run_turn_cycle}
use civ_sim_taskify.Turn.Protocol.Starts.{Somewhere}
use civ_sim_taskify.Turn.Protocol.Seals.{Turned, run_turn_cycle-Follows}
use civ_sim_taskify.Turn.Protocol.Once.{WritesOnce, run_turn_cycle-WritesOnce}

abbrev pub deps : TurnCycleDependencies
deps = record {
  run_id = "run-1";
  turn_number = 12;
  attempt_index_base = 1;
  min_free_disk_gb = 2;
  free_bytes = λ ds. 5000000000;
  save_game = λ ds name. ok tt;
  first_size = λ ds name. some 700;
  second_size = λ ds name. some 700;
  format_turn = λ n. "0012";
  is_save_name = λ s. true;
  new_cycle_id = λ ds. "turn-1";
  build_loop_context = λ ds id. ctx;
  loop_fuel = 5;
  recovery_limit = 3;
  load = λ ds save. ok tt;
  write_turn_cycle = λ ds tc. ok tc.turn_cycle_id;
  turn_gaps = λ ds. [];
  step_gaps = λ ds n. [];
  detection = none;
  clock = λ ds n. n;
}

abbrev pub played_run : Run
played_run = record host_run { lifecycle_state = playing }

abbrev pub harness : Harness
harness = record {
  deeds = [];
  store = record { consecutive_failures = 0; run = played_run; events = []; save_points = [] };
  pass_timeouts = 0;
}

run_turn_cycle-Follows_example :
    Ends (Somewhere deps harness) (Turned deps harness) (run_turn_cycle deps 2 played_run harness)
run_turn_cycle-Follows_example = run_turn_cycle-Follows deps 2 played_run harness

run_turn_cycle-WritesOnce_example :
    WritesOnce deps harness (run_turn_cycle deps 2 played_run harness)
run_turn_cycle-WritesOnce_example = run_turn_cycle-WritesOnce deps 2 played_run harness

take_quicksave-Reports_example : Reports deps harness (take_quicksave deps harness)
take_quicksave-Reports_example = take_quicksave-Reports deps harness

abbrev silent : DetectionWatch
silent = zombie 2 (λ ds. 3) (λ ds. 1)

watch_passes-Found_example :
    (ds : List Deed) × Found deps 2
      (λ ds. 3)
      (λ ds. 1)
      (3 + 0)
      ds
      (watch_passes deps silent 3 harness).0
watch_passes-Found_example = watch_passes-Found deps 2 (λ ds. 3) (λ ds. 1) 3 harness (omega arith)

-- The game's answers can never be assembled.
abbrev unread : DecisionLoopContext
unread = record ctx { read_observation_inputs = λ cs. err observation_assembly_error }

abbrev blind_deps : TurnCycleDependencies
blind_deps = record deps { build_loop_context = λ ds id. unread }

abbrev pub turn_start : SavePoint
turn_start = record {
  save_point_id = 0;
  run_id = "run-1";
  turn_number = 12;
  save_name = "civsim__run-1__t0012";
  taken_at = 1;
  verified = true;
  retention_status = retained;
  missing = false;
}

unread-IsBlind : IsBlind blind_deps
unfolding run_decision_loop observe_or_wrap observe new_tracker images_permitted_for_run
unread-IsBlind ds id s = ([], 0, _, refl)

pub played_run-IsValid : IsValid played_run
played_run-IsValid = record {
  parent_turn_positive = refl;
  finished_resolved = λ h. cc;
  resolved_terminal = λ h. cc;
  archived_terminal = λ h. cc;
}

attempts-Blind_example :
    (attempts blind_deps turn_start 9 1 played_run harness).0 ≡ failed still_replaying
attempts-Blind_example =
    attempts-Blind blind_deps turn_start unread-IsBlind refl (λ ds. refl) refl refl 9 1 played_run
      harness played_run-IsValid refl
