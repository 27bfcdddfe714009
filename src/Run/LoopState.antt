-- ===== src/Run/LoopState.antt =====
-- run/decision_loop.py: what the loop of one turn attempt is given, the calls that it makes of the
-- game, the provider and the store, and what it produces. The store's writes are taken to succeed.
-- What the game, the host, the provider and the clock answer may depend on all the calls before.
use civ_sim_taskify.Prelude.{ℕ, String, Bool, Option, List, ◌∷◌}
use civ_sim_taskify.Errors.{Error, Result, ok, err}
use civ_sim_taskify.Models.Run.{Run, Timestamp}
use civ_sim_taskify.Models.Event.{RunEvent}
use civ_sim_taskify.Models.Turn.{Observation, ScreenCapture, StepProgress, TurnOutcome}
use civ_sim_taskify.Models.Value.{Value, Fields}
use civ_sim_taskify.Provider.Port.{ModelRef, DecisionRequest, DecisionResponse}
use civ_sim_taskify.Provider.Accounting.{ModelCall}
use civ_sim_taskify.Predicate.Syntax.{Python}
use civ_sim_taskify.Act.Registry.{Catalog, CapabilityResult}
use civ_sim_taskify.Observe.Screen.{Coercions}
use civ_sim_taskify.Observe.Capture.{Attempted, StepCapture}
use civ_sim_taskify.Agent.Decisions.{Decision}
use civ_sim_taskify.Agent.Context.{Texts}
use civ_sim_taskify.Run.Actions.{Action, failed, returned}

pub data Call : Type 0 where
  looked : Call
  captured : StepCapture → Call
  downgraded : Call
  wrote_capture : ScreenCapture → Option (List ℕ) → Call
  asked : DecisionRequest → Call
  wrote_call : ModelCall → Call
  acted : String → Fields → Call

-- The calls so far, the last one first, and the run's record in the store.
pub record Live : Type 0 where
  pub calls : List Call
  pub run : Option Run

-- `DecisionLoopContext`, with Python's functions that the components take as parameters. The number
-- of a reading of the clock tells those after the same calls apart.
pub record DecisionLoopContext : Type 0 where
  pub run_id : String
  pub turn_number : ℕ
  pub turn_cycle_id : String
  pub catalog : Catalog
  pub catalog_version : String
  pub model : ModelRef
  pub guidance : Option String
  pub no_progress_step_limit : ℕ
  pub view_declaration_id : String
  pub read_observation_inputs : List Call → Result (List CapabilityResult × String)
  pub window_resolved : List Call → Bool
  pub camera_state : List Call → Result Fields
  pub attempt_once : List Call → Fields → ℕ → Attempted
  pub complete : List Call → DecisionRequest → Result DecisionResponse
  pub execute_action : List Call → String → Fields → Value → Result (Unit {0})
  pub clock : List Call → ℕ → Timestamp
  pub texts : Texts
  pub coercions : Coercions
  pub python : Python
  pub strip : String → String
  pub upper : String → String
  pub sha256 : List ℕ → String

-- models/turn.py. Identifiers are numbers here: those of a step are its index.
pub record DecisionStep : Type 0 where
  pub decision_step_id : ℕ
  pub turn_cycle_id : String
  pub step_index : ℕ
  pub observation_id : ℕ
  pub decision_id : ℕ
  pub model_call_id : ℕ
  pub progress : StepProgress
  pub no_progress_streak_after : ℕ
  pub visually_degraded : Bool
  pub started_at : Timestamp
  pub ended_at : Timestamp

-- store/port.py
pub record DecisionStepBundle : Type 0 where
  pub step : DecisionStep
  pub observation : Observation
  pub decision : Decision
  pub model_call : ModelCall

pub record DecisionLoopResult : Type 0 where
  pub outcome : TurnOutcome
  pub steps : List DecisionStepBundle
  pub final_no_progress_streak : ℕ
  pub events : List RunEvent

-- The exceptions, with what the two of this module carry; the loop that is out of fuel has not ended.
pub data Failure : Type 0 where
  raised : Error → Failure
  mid_turn_observation_failure : List DecisionStepBundle → List RunEvent → ℕ → Failure
  unknown_screen_encountered : RunEvent → Failure
  out_of_fuel : List DecisionStepBundle → Failure

abbrev pub Do : Type 0 → Type 0
Do A = Action Live Failure A

abbrev pub lift : {A : Type 0} → Result A → Do A
lift (ok a) s = (returned a, s)
lift (err e) s = (failed (raised e), s)

abbrev pub calls_now : Do (List Call)
calls_now s = (returned s.calls, s)

abbrev pub tell : Call → Do (Unit {0})
tell c s = (returned tt, record s { calls = c ∷ s.calls })
