-- ===== src/Run/DecisionLoop/Rule.antt =====
-- A rule for the loop: what every call that it makes keeps holds however a part of a round ends.
pub mod Reads
pub mod Shown
pub mod Parts
pub mod Asked
pub mod Rounds
use civ_sim_taskify.Prelude.{ℕ, String, ◌≡◌, Bool, true, false, Option, some, List, [], ◌∷◌}
use civ_sim_taskify.Errors.{Error, ok}
use civ_sim_taskify.Models.Run.{Run, comparable, visually_degraded}
use civ_sim_taskify.Models.Event.{RunEvent}
use civ_sim_taskify.Models.Turn.{Observation, ScreenCapture, screened_clean}
use civ_sim_taskify.Models.Value.{Fields}
use civ_sim_taskify.Provider.Port.{Image, RawDecision, DecisionRequest, DecisionResponse}
use civ_sim_taskify.Provider.Accounting.{ModelCall}
use civ_sim_taskify.Act.Registry.{ParityDeclaration}
use civ_sim_taskify.Act.Dispatch.{authorized}
use civ_sim_taskify.Act.Camera.{dispatch_decision}
use civ_sim_taskify.Observe.Capture.{StepCapture}
use civ_sim_taskify.Run.LoopState.{
  Call, looked, captured, downgraded, wrote_capture, asked, wrote_call, acted, Live,
  DecisionLoopContext, Failure, raised, unknown_screen_encountered,
}
use civ_sim_taskify.Run.Step.{target_of}

abbrev pub has_any : List Image → Bool
has_any [] = false
has_any (i ∷ is) = true

-- The capture's record says that it was shown exactly if the request carries an image, which needs
-- the permission of the run and a clean capture of the request's own step.
abbrev pub IsShownIn : Bool → ScreenCapture → DecisionRequest → Type 0
IsShownIn permitted c request =
    (c.shown_to_agent ≡ has_any request.images)
    × (has_any request.images ≡ true
        → (permitted ≡ true)
          × (c.screening_status ≡ screened_clean)
          × (c.decision_step_id ≡ request.step_index))

-- The action is what the provider answered to the request, and was authorized.
pub record IsAnswer (ctx : DecisionLoopContext) (before : List Call) (request : DecisionRequest)
    (k : String) (ps : Fields) : Type 0 where
  pub response : DecisionResponse
  pub answer : RawDecision
  pub observation : Observation
  pub declaration : ParityDeclaration
  pub answered : ctx.complete before request ≡ ok response
  pub decided : response.decision ≡ some answer
  pub parameters : ps ≡ answer.parameters
  pub allowed :
      dispatch_decision ctx.python ctx.catalog answer.action_declaration_id observation
        (target_of answer.parameters)
      ≡ ok (authorized declaration)
  pub declared : k ≡ declaration.declaration_id

abbrev pub called : Call → Live → Live
called c s = record s { calls = c ∷ s.calls }

-- What each call keeps, and what an exception then leaves. The flag of the invariant says that the
-- game has been read since the last request and the last action.
pub record IsKept (ctx : DecisionLoopContext) (permitted : Bool) (X : Failure → Live → Type 0)
    (I : Bool → Live → Type 0) : Type 0 where
  pub quiet : (e : Error) (b : Bool) (s : Live) → I b s → X (raised e) s
  pub stalled : (e : RunEvent) (b : Bool) (s : Live) → I b s → X (unknown_screen_encountered e) s
  pub looks : (b : Bool) (s : Live) → I b s → I true (called looked s)
  pub captures : (b : Bool) (s : Live) (c : StepCapture) → I b s → I b (called (captured c) s)
  pub downgrades :
      (b : Bool) (s : Live) (r : Run)
      → s.run ≡ some r
      → r.comparability_status ≡ comparable
      → I b s
      → I b (record {
        calls = downgraded ∷ s.calls;
        run = some (record r { comparability_status = visually_degraded });
      })
  pub writes :
      (b : Bool) (s : Live) (c : ScreenCapture) (blob : Option (List ℕ))
      → c.shown_to_agent ≡ false
      → I b s
      → I b (called (wrote_capture c blob) s)
  pub asks :
      (s : Live) (c : ScreenCapture) (blob : Option (List ℕ)) (r : DecisionRequest)
      → IsShownIn permitted c r
      → I true s
      → I false (called (asked r) (called (wrote_capture c blob) s))
  pub records : (b : Bool) (s : Live) (c : ModelCall) → I b s → I b (called (wrote_call c) s)
  pub acts :
      (s : Live) (before : List Call) (r : DecisionRequest) (k : String) (ps : Fields)
      → s.calls ≡ asked r ∷ before
      → IsAnswer ctx before r k ps
      → I false s
      → I false (called (acted k ps) s)
