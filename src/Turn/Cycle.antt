-- ===== src/Turn/Cycle.antt =====
-- run/turn_cycle.py: one turn of a run, from its save to the end of the turn.
use civ_sim_taskify.Prelude.{ℕ, String, true, Option, none, some, List, map, length}
use civ_sim_taskify.Errors.{Result, ok, client_fault_detected}
use civ_sim_taskify.Models.Run.{Run}
use civ_sim_taskify.Models.Turn.{TurnOutcome, ended_by_agent}
use civ_sim_taskify.Resilience.Recovery.{SavePoint}
use civ_sim_taskify.Store.Guard.{TurnCycle, TurnPersistedToken, write_then_advance}
use civ_sim_taskify.Store.Completeness.{Reads, refresh_run_completeness}
use civ_sim_taskify.Run.Actions.{pure, fail, modify, ◌>>=◌, ◌>>◌}
use civ_sim_taskify.Run.LoopState.{DecisionStepBundle}
use civ_sim_taskify.Turn.State.{
  Deed, wrote_cycle, Harness, DetectionWatch, TurnCycleDependencies, TurnCycleOutcome, raised, Do,
  lift, deeds_now, tell, write_events,
}
use civ_sim_taskify.Turn.Detection.{Fault, fault_of, primary_fault, check_liveness_now}
use civ_sim_taskify.Turn.Quicksave.{take_quicksave}
use civ_sim_taskify.Turn.Attempts.{Finished, run_of, any_degraded, build_record, attempts}
use civ_sim_taskify.Turn.Backstop.{dispatch_backstop_end_turn}

abbrev pub unless_faulty : Option Fault → Do (Unit {0})
unless_faulty none = pure tt
unless_faulty (some f) = fail (raised client_fault_detected)

abbrev pub turn_of : SavePoint → ℕ
turn_of s = s.turn_number

-- `refresh_run_completeness`, over what the store holds and the gaps that it reports.
unfoldable pub refresh : (List Deed → List ℕ) → (List Deed → ℕ → List ℕ) → Harness → Harness
unfolding refresh_run_completeness
refresh turn_gaps step_gaps h =
    let reads : Reads = record {
      list_save_points = map turn_of h.store.save_points;
      get_run = some h.store.run;
      turn_gaps = turn_gaps h.deeds;
      step_gaps = step_gaps h.deeds;
    } in
    record h {
      store = record h.store { run = run_of (refresh_run_completeness reads).1 h.store.run };
    }

module _ (deps : TurnCycleDependencies) where
  abbrev pub detect : Option DetectionWatch → Do (Unit {0})
  detect none = pure tt
  detect (some w) = do
    events ← check_liveness_now deps w
    unless_faulty (fault_of events (primary_fault events))

  -- `_detect_between_turns`
  unfoldable pub detect_between_turns : Do (Unit {0})
  unfolding check_liveness_now primary_fault
  detect_between_turns = detect deps.detection

  -- The record of the attempt that ended.
  abbrev pub final_record : SavePoint → Finished → List Deed → TurnCycle
  final_record save f ds = record {
    turn_cycle_id = f.turn_cycle_id;
    run_id = deps.run_id;
    turn_number = deps.turn_number;
    attempt_index = f.attempt_index;
    is_authoritative = true;
    save_point_id = save.save_point_id;
    step_count = length f.result.steps;
    outcome = f.result.outcome;
    final_no_progress_streak = f.result.final_no_progress_streak;
    visually_degraded = any_degraded f.result.steps;
    started_at = f.started_at;
    ended_at = deps.clock ds 4;
  }

  -- `_end_turn`: a coroutine, which the guard returns and its caller awaits.
  unfoldable pub end_turn : TurnOutcome → TurnPersistedToken → Do String
  unfolding dispatch_backstop_end_turn
  end_turn ended_by_agent token = pure token.turn_cycle_id
  end_turn o token = dispatch_backstop_end_turn deps token.turn_cycle_id

  -- `await write_then_advance(...)`: the write is done when the guard returns the coroutine.
  abbrev pub guarded : List Deed → TurnCycle → Result (Do String)
  guarded ds tc =
      (write_then_advance (deps.write_turn_cycle ds) tc (λ token. ok (end_turn tc.outcome token))).0

  unfoldable pub seal : TurnCycle → List DecisionStepBundle → Do String
  unfolding write_then_advance end_turn
  seal tc steps = do
    ds ← deeds_now
    ending ← lift (guarded ds tc)
    tell (wrote_cycle tc steps)
    ending

  abbrev pub refreshed : Finished → String → Do TurnCycleOutcome
  refreshed f id =
      modify (refresh deps.turn_gaps deps.step_gaps)
      >> pure (record { turn_cycle_id = id; outcome = f.result.outcome; run = f.run })

  abbrev pub events_and_end : TurnCycle → Finished → Do TurnCycleOutcome
  events_and_end tc f = do write_events f.result.events; id ← seal tc f.result.steps; refreshed f id

  -- What follows the attempts.
  unfoldable pub persist_and_end : SavePoint → Finished → Do TurnCycleOutcome
  unfolding build_record write_events seal refresh
  persist_and_end save f = do
    ds ← deeds_now
    let tc = final_record save f ds
    lift (build_record tc f.result.steps)
    events_and_end tc f

  -- The number of attempts is the fuel.
  unfoldable pub run_turn_cycle : ℕ → Run → Do TurnCycleOutcome
  unfolding detect_between_turns take_quicksave attempts
  run_turn_cycle fuel run = do
    detect_between_turns
    save ← take_quicksave deps
    f ← attempts deps save fuel deps.attempt_index_base run
    persist_and_end save f
