-- ===== src/Turn/State.antt =====
-- run/turn_cycle.py: what one turn of a run is given, what it does to the game and the store in the
-- order of doing, and how it may fail. The game, the host and the store answer by all that was done
-- before.
use civ_sim_taskify.Prelude.{ℕ, String, Bool, Option, none, some, List, [], ◌∷◌}
use civ_sim_taskify.Errors.{Error, Result, ok, err}
use civ_sim_taskify.Models.Run.{Run, Timestamp}
use civ_sim_taskify.Models.Event.{RunEvent, RunEventType, no_detail}
use civ_sim_taskify.Models.Turn.{TurnOutcome}
use civ_sim_taskify.Resilience.Detector.{Monitors}
use civ_sim_taskify.Resilience.Recovery.{SavePoint, World, write_run_event}
use civ_sim_taskify.Store.Guard.{TurnCycle}
use civ_sim_taskify.Run.Actions.{Action, failed, returned, pure, ◌>>◌}
use civ_sim_taskify.Run.LoopState.{Call, DecisionLoopContext, DecisionStepBundle, Failure}

-- A liveness check, a detection pass, a call of the save capability, an attempt with the calls that
-- its loop made, the start of a recovery, an acknowledged write of a record, and a read of the game
-- and an action by the harness itself.
pub data Deed : Type 0 where
  probed passed : Deed
  saved : String → Deed
  played : String → List Call → Deed
  recovering : SavePoint → Deed
  wrote_cycle : TurnCycle → List DecisionStepBundle → Deed
  looked : Deed
  executed : String → Deed

-- The deeds, the last one first, the store with the engine's counter of failed recoveries, and the
-- watch's count of passes that timed out in a row.
pub record Harness : Type 0 where
  pub deeds : List Deed
  pub store : World
  pub pass_timeouts : ℕ

-- What `run_bounded` makes of the aggregate pass.
pub data Pass : Type 0 where
  timed_out : Pass
  broke : Error → Pass
  in_time : Monitors → Pass

-- run/detection.py. How many passes begin before the loop is done, and how many calls it has made
-- when it is cancelled, is the scheduler's to say.
pub record DetectionWatch : Type 0 where
  pub liveness : Option (List Deed → Bool)
  pub aggregate : List Deed → Pass
  pub sustained_failure_threshold : ℕ
  pub passes_during : List Deed → ℕ
  pub calls_before : List Deed → ℕ

-- `TurnCycleDependencies`. The sizes of the save file are those of its two reads, if it is there.
pub record TurnCycleDependencies : Type 0 where
  pub run_id : String
  pub turn_number : ℕ
  pub attempt_index_base : ℕ
  pub min_free_disk_gb : ℕ
  pub free_bytes : List Deed → ℕ
  pub save_game : List Deed → String → Result (Unit {0})
  pub first_size : List Deed → String → Option ℕ
  pub second_size : List Deed → String → Option ℕ
  pub format_turn : ℕ → String
  pub is_save_name : String → Bool
  pub new_cycle_id : List Deed → String
  pub build_loop_context : List Deed → String → DecisionLoopContext
  pub loop_fuel : ℕ
  pub recovery_limit : ℕ
  pub load : List Deed → SavePoint → Result (Unit {0})
  pub write_turn_cycle : List Deed → TurnCycle → Result String
  pub turn_gaps : List Deed → List ℕ
  pub step_gaps : List Deed → ℕ → List ℕ
  pub detection : Option DetectionWatch
  pub clock : List Deed → ℕ → Timestamp

pub record TurnCycleOutcome : Type 0 where
  pub turn_cycle_id : String
  pub outcome : TurnOutcome
  pub run : Run

-- An exception of this module or of a component, one of the loop that goes on as it is, or no
-- exception: the turn is still being replayed when the fuel for its attempts is used up.
pub data TurnFailure : Type 0 where
  raised : Error → TurnFailure
  stopped : Failure → TurnFailure
  still_replaying : TurnFailure

abbrev pub Do : Type 0 → Type 0
Do A = Action Harness TurnFailure A

abbrev pub lift : {A : Type 0} → Result A → Do A
lift (ok a) s = (returned a, s)
lift (err e) s = (failed (raised e), s)

abbrev pub deeds_now : Do (List Deed)
deeds_now s = (returned s.deeds, s)

abbrev pub tell : Deed → Do (Unit {0})
tell d s = (returned tt, record s { deeds = d ∷ s.deeds })

abbrev pub write_event : RunEvent → Do (Unit {0})
write_event e s = (returned tt, record s { store = write_run_event e s.store })

unfoldable pub write_events : List RunEvent → Do (Unit {0})
write_events [] = pure tt
write_events (e ∷ es) = write_event e >> write_events es

-- An event of this turn.
abbrev pub turn_event : TurnCycleDependencies → RunEventType → Timestamp → RunEvent
turn_event deps type at = record {
  run_id = deps.run_id;
  turn_number = some deps.turn_number;
  step_index = none;
  event_type = type;
  occurred_at = at;
  detail = no_detail;
}
