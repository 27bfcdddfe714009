-- ===== src/Turn/Attempts.antt =====
-- run/turn_cycle.py: the attempts at a turn, each abandoned one followed by a recovery.
pub mod Blind
pub mod Plays
use civ_sim_taskify.Prelude.{
  ℕ, zero, suc, ◌-◌, String, Bool, true, false, ◌||◌, Option, none, some, List, [], ◌∷◌, ltb,
  length, drop, if◌then◌else◌,
}
use civ_sim_taskify.Errors.{
  Error, Result, ok, err, client_fault_detected, validation_error, raise_if,
}
use civ_sim_taskify.Errors
use civ_sim_taskify.Models.Run.{Run, Timestamp}
use civ_sim_taskify.Models.Event.{RunEvent, RunEventType}
use civ_sim_taskify.Models.Turn.{TurnOutcome, abandoned}
use civ_sim_taskify.Resilience.Recovery.{
  SavePoint, World, RecoveryResult, recover, recover_from_observation_assembly_error,
}
use civ_sim_taskify.Store.Guard.{TurnCycle}
use civ_sim_taskify.Store.Record.{validate_record}
use civ_sim_taskify.Run.Actions.{Outcome, failed, returned, pure, fail, only_if, ◌>>=◌, ◌>>◌}
use civ_sim_taskify.Run.LoopState.{
  Call, downgraded, Live, DecisionLoopContext, DecisionStepBundle, DecisionLoopResult, Failure,
  mid_turn_observation_failure,
}
use civ_sim_taskify.Run.DecisionLoop.{run_decision_loop}
use civ_sim_taskify.Turn.State.{
  Deed, played, recovering, wrote_cycle, Harness, DetectionWatch, TurnCycleDependencies,
  TurnFailure, raised, stopped, still_replaying, Do, lift, deeds_now, tell, write_events,
}
use civ_sim_taskify.Turn.Detection.{
  Fault, fault_of, primary_fault, check_liveness_now, watch_passes,
}

-- How an attempt ends: by itself, with a result or an exception, or cancelled by the watch.
pub data Played : Type 0 where
  by_itself : Outcome Failure DecisionLoopResult → Played
  cancelled : Fault → Played

abbrev pub run_of : Option Run → Run → Run
run_of none run = run
run_of (some r) run = r

-- What the loop leaves: its calls as one deed, and the record of the run.
abbrev pub leaving : String → List Call → Option Run → Harness → Harness
leaving id calls run h = record h {
  deeds = played id calls ∷ h.deeds;
  store = record h.store { run = run_of run h.store.run };
}

abbrev pub any_downgrade : List Call → Bool
any_downgrade [] = false
any_downgrade (downgraded ∷ cs) = true
any_downgrade (c ∷ cs) = any_downgrade cs

-- The first `n` calls of a loop, whose list has the last one first.
abbrev pub calls_until : ℕ → List Call → List Call
calls_until n calls = drop (length calls - n) calls

abbrev pub any_degraded : List DecisionStepBundle → Bool
any_degraded [] = false
any_degraded (b ∷ bs) = b.step.visually_degraded || any_degraded bs

abbrev pub is_nonempty : List DecisionStepBundle → Bool
is_nonempty [] = false
is_nonempty (b ∷ bs) = true

-- What the loop over the attempts leaves by `break`.
pub record Finished : Type 0 where
  pub turn_cycle_id : String
  pub attempt_index : ℕ
  pub started_at : Timestamp
  pub result : DecisionLoopResult
  pub run : Run

-- The constraint of `TurnCycle` on the turn, and `TurnCycleRecord`.
unfoldable pub build_record : TurnCycle → List DecisionStepBundle → Result (Unit {0})
unfolding validate_record
build_record tc steps = Errors.◌>>◌ (raise_if (ltb tc.turn_number 1) validation_error) (
    Errors.◌>>=◌
      (validate_record
        (record { turn_cycle_id = tc.turn_cycle_id; step_count = tc.step_count; steps = steps }))
      (λ _. ok tt))

module _ (deps : TurnCycleDependencies) where
  -- The loop of one attempt, from the state of the harness.
  abbrev pub loop_of : DecisionLoopContext → Harness → Outcome Failure DecisionLoopResult × Live
  loop_of ctx h =
      run_decision_loop ctx deps.loop_fuel (record { calls = []; run = some h.store.run })

  abbrev pub ran_through :
      String
      → Outcome Failure DecisionLoopResult × Live
      → Harness
      → Outcome TurnFailure Played × Harness
  ran_through id (o, live) h = (returned (by_itself o), leaving id live.calls live.run h)

  -- `task.cancel()`, with what the loop has done until then.
  abbrev pub cut_off :
      String
      → ℕ
      → Fault
      → Outcome Failure DecisionLoopResult × Live
      → Harness
      → Outcome TurnFailure Played × Harness
  cut_off id n fault (o, live) h =
      let calls = calls_until n live.calls in
      (
        returned (cancelled fault),
        leaving id calls (if any_downgrade calls then live.run else some h.store.run) h,
      )

  abbrev pub unless_faulty : DecisionLoopContext → String → ℕ → Option Fault → Do Played
  unless_faulty ctx id n none h = ran_through id (loop_of ctx h) h
  unless_faulty ctx id n (some fault) h = cut_off id n fault (loop_of ctx h) h

  abbrev pub watched : DecisionLoopContext → String → Option DetectionWatch → Do Played
  watched ctx id none = unless_faulty ctx id 0 none
  watched ctx id (some w) = do
    ds ← deeds_now
    fault ← watch_passes deps w (w.passes_during ds)
    unless_faulty ctx id (w.calls_before ds) fault

  -- `_run_decision_loop_watched` and `run_under_detection`
  unfoldable pub run_decision_loop_watched : DecisionLoopContext → String → Do Played
  unfolding run_decision_loop watch_passes
  run_decision_loop_watched ctx id = watched ctx id deps.detection

  abbrev pub abandoned_record :
      String → ℕ → SavePoint → List DecisionStepBundle → ℕ → Timestamp → Timestamp → TurnCycle
  abandoned_record id index save steps streak started ended = record {
    turn_cycle_id = id;
    run_id = deps.run_id;
    turn_number = deps.turn_number;
    attempt_index = index;
    is_authoritative = false;
    save_point_id = save.save_point_id;
    step_count = length steps;
    outcome = abandoned;
    final_no_progress_streak = streak;
    visually_degraded = any_degraded steps;
    started_at = started;
    ended_at = ended;
  }

  abbrev pub write_abandoned : TurnCycle → List DecisionStepBundle → List RunEvent → Do (Unit {0})
  write_abandoned tc steps events = do
    ds ← deeds_now
    id ← lift (deps.write_turn_cycle ds tc)
    tell (wrote_cycle tc steps)
    write_events events

  -- `_persist_abandoned_attempt`
  unfoldable pub persist_abandoned_attempt :
      TurnCycle → List DecisionStepBundle → List RunEvent → Do (Unit {0})
  unfolding build_record write_events
  persist_abandoned_attempt tc steps events =
      lift (build_record tc steps) >> write_abandoned tc steps events

  abbrev pub of_recovery :
      Result RecoveryResult × World → Harness → Outcome TurnFailure Run × Harness
  of_recovery (err e, w) h = (failed (raised e), record h { store = w })
  of_recovery (ok r, w) h = (returned r.run, record h { store = w })

  -- The engine's two entries, at the time of the call.
  unfoldable pub recover_now : Run → SavePoint → Do Run
  unfolding recover
  recover_now run save h =
      of_recovery
        (recover deps.turn_number (deps.clock h.deeds 3) deps.recovery_limit (deps.load h.deeds) run
          save h.store)
        (record h { deeds = recovering save ∷ h.deeds })

  unfoldable pub recover_from_error_now : Run → SavePoint → Do Run
  unfolding recover_from_observation_assembly_error
  recover_from_error_now run save h =
      of_recovery
        (recover_from_observation_assembly_error deps.turn_number (deps.clock h.deeds 3)
          (deps.clock h.deeds 2) deps.recovery_limit (deps.load h.deeds) run save h.store)
        (record h { deeds = recovering save ∷ h.deeds })

  abbrev pub unless_still_faulty : Option Fault → Do (Unit {0})
  unless_still_faulty none = pure tt
  unless_still_faulty (some f) = fail (raised client_fault_detected)

  abbrev pub still_alive : Option DetectionWatch → Do (Unit {0})
  still_alive none = pure tt
  still_alive (some w) = do
    events ← check_liveness_now deps w
    unless_still_faulty (fault_of events (primary_fault events))

  module _ (save : SavePoint) where
    -- The handlers of the two exceptions that a replay follows, and all else.
    abbrev pub on_played :
        (ℕ → Run → Do Finished) → ℕ → Run → String → Timestamp → Played → Do Finished
    on_played next index run id started (by_itself (returned r)) = pure (record {
      turn_cycle_id = id;
      attempt_index = index;
      started_at = started;
      result = r;
      run = run;
    })
    on_played next index run id started (cancelled fault) = do
      back ← recover_now run save
      still_alive deps.detection
      next (suc index) back
    on_played next index run id started
          (by_itself (failed (mid_turn_observation_failure steps events streak))) =
        do
          ds ← deeds_now
          only_if (is_nonempty steps) (
              persist_abandoned_attempt
                (abandoned_record id index save steps streak started (deps.clock ds 4)) steps
                events)
          back ← recover_from_error_now run save
          next (suc index) back
    on_played next index run id started (by_itself (failed f)) = fail (stopped f)

    -- `while True`, on fuel for the attempts.
    unfoldable pub attempts : ℕ → ℕ → Run → Do Finished
    unfolding run_decision_loop_watched persist_abandoned_attempt recover_now recover_from_error_now
        check_liveness_now
    attempts zero index run = fail still_replaying
    attempts (suc fuel) index run = do
      ds ← deeds_now
      let id = deps.new_cycle_id ds
      p ← run_decision_loop_watched (deps.build_loop_context ds id) id
      on_played (attempts fuel) index run id (deps.clock ds 5) p
