-- ===== src/Runner/State.antt =====
-- run/runner.py: what the runner keeps of one run, and the recorded transitions of its lifecycle. The
-- lock is not modelled: each part that holds it is a function of the state.
use civ_sim_taskify.Prelude.{ℕ, Bool, Option, none, some, List}
use civ_sim_taskify.Errors.{Result, ok, err}
use civ_sim_taskify.Models.Run.{Run, Timestamp, LifecycleState, StopResolution, finished}
use civ_sim_taskify.Models.Event.{RunEvent}
use civ_sim_taskify.Lifecycle.{transition}
use civ_sim_taskify.Stop.{StopCondition, StopEvaluation}
use civ_sim_taskify.Resilience.Recovery.{World, write_run_event, update_state, update_ended}
use civ_sim_taskify.Run.Actions.{Action, Outcome, failed, returned, modify, ◌>>◌}
use civ_sim_taskify.Turn.State.{Deed, Harness, TurnCycleDependencies, TurnFailure, raised}
use civ_sim_taskify.Turn.Cycle.{refresh}

-- `_RunState`; the step is left out. An error is kept with its time.
pub record RunState : Type 0 where
  pub run : Run
  pub current_turn : Option ℕ
  pub pause_requested : Bool
  pub stop_requested : Bool
  pub last_error : Option (TurnFailure × Timestamp)

pub record Runner : Type 0 where
  pub state : RunState
  pub harness : Harness

-- The commands that reach the runner while a turn is played.
pub data Request : Type 0 where
  pause resume stop : Request

-- `RunnerDependencies`, with the stop condition of the prepared run. What the operator requests during
-- a turn, and the gaps that the store reports, depend on all deeds before.
pub record RunnerDependencies : Type 0 where
  pub stop_condition : StopCondition
  pub build_turn_dependencies : ℕ → TurnCycleDependencies
  pub evaluate_stop_facts : List Deed → ℕ → StopEvaluation
  pub requests_during : List Deed → List Request
  pub turn_gaps : List Deed → List ℕ
  pub step_gaps : List Deed → ℕ → List ℕ
  pub attempts_fuel : ℕ
  pub clock : List Deed → ℕ → Timestamp

-- An exception of a turn or of the runner, or no exception: the turns are more than the fuel.
pub data PlayFailure : Type 0 where
  failing : TurnFailure → PlayFailure
  still_playing : PlayFailure

abbrev pub Do : Type 0 → Type 0
Do A = Action Runner PlayFailure A

abbrev pub with_state : RunState → Runner → Runner
with_state s r = record r { state = s }

abbrev pub with_run : Run → Runner → Runner
with_run run r = record r { state = record r.state { run = run } }

abbrev pub with_store : World → Runner → Runner
with_store w r = record r { harness = record r.harness { store = w } }

module _ (deps : RunnerDependencies) where
  -- `refresh_run_completeness`
  abbrev pub refreshed : Runner → Runner
  refreshed r = record r { harness = refresh deps.turn_gaps deps.step_gaps r.harness }

  abbrev pub recorded :
      (Run → World → World)
      → Result (Run × RunEvent)
      → Runner
      → Outcome PlayFailure (Unit {0}) × Runner
  recorded update (err e) r = (failed (failing (raised e)), r)
  recorded update (ok (run, e)) r =
      (returned tt, with_store (update run (write_run_event e r.harness.store)) (with_run run r))

  -- `_advance`
  unfoldable pub advance : LifecycleState → Do (Unit {0})
  unfolding transition write_run_event update_state
  advance to r =
      recorded update_state
        (transition r.state.run to (deps.clock r.harness.deeds 0) r.state.current_turn none none) r

  -- `_finish`
  unfoldable pub finish : StopResolution → Do (Unit {0})
  unfolding transition write_run_event update_ended refresh
  finish resolution =
      (λ r.
        recorded update_ended
          (transition r.state.run finished (deps.clock r.harness.deeds 0) r.state.current_turn none
            (some resolution))
          r)
      >> modify refreshed
