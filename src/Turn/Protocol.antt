-- ===== src/Turn/Protocol.antt =====
-- What a turn may do in which order, apart from the code: the phases of a turn as a relation on the
-- deeds, and what each record that is written on the way says of its attempt.
pub mod Starts
pub mod Watches
pub mod Replays
pub mod Rounds
pub mod Seals
pub mod Once
use civ_sim_taskify.Prelude.{
  ℕ, suc, String, ◌≡◌, Bool, true, false, Option, some, List, [], ◌∷◌, length,
}
use civ_sim_taskify.Errors.{ok}
use civ_sim_taskify.Models.Run.{Timestamp}
use civ_sim_taskify.Models.Value.{null}
use civ_sim_taskify.Models.Turn.{Observation, abandoned, ended_on_no_progress}
use civ_sim_taskify.Resilience.Recovery.{SavePoint}
use civ_sim_taskify.Store.Guard.{TurnCycle}
use civ_sim_taskify.Act.Registry.{ParityDeclaration, in_game}
use civ_sim_taskify.Act.Dispatch.{authorized, applied, dispatch_action}
use civ_sim_taskify.Act.Verify.{ExecutionVerification, verify_execution}
use civ_sim_taskify.Run.LoopState.{Call, DecisionLoopContext, DecisionStepBundle}
use civ_sim_taskify.Run.Attempt.{Attempt, Unfinished}
use civ_sim_taskify.Run.DecisionLoop.Starts.{start}
use civ_sim_taskify.Turn.State.{
  Deed, probed, passed, saved, played, recovering, wrote_cycle, looked, executed,
  TurnCycleDependencies,
}
use civ_sim_taskify.Turn.Quicksave.{point}
use civ_sim_taskify.Turn.Quicksave.Verified.{IsVerified}
use civ_sim_taskify.Turn.Attempts.{any_degraded, is_nonempty}
use civ_sim_taskify.Turn.Backstop.{end_turn_declaration_id, observed, after_end_turn}

-- An attempt that is over has its id, and what was done before it began.
pub data Phase : Type 0 where
  waiting : Phase
  taking : String → Phase
  ready : ℕ → Phase
  over : ℕ → String → List Deed → Phase
  given_up : ℕ → Phase
  mending : ℕ → Phase
  sealed : TurnCycle → Phase
  asking : TurnCycle → Phase
  ending : TurnCycle → Phase
  reading : TurnCycle → Phase

-- The save point of this name: its fields are those of the turn, and it is verified.
abbrev pub IsPoint : TurnCycleDependencies → String → SavePoint → Type 0
IsPoint deps name save = (at : Timestamp) × (save ≡ point deps save.save_point_id name at)

-- The turn's save point is a parameter, and is that of the file that is verified.
module _ (deps : TurnCycleDependencies) (save : SavePoint) where
  -- A record of the turn's attempt of this index, played from the turn's save.
  pub record IsOfTurn (i : ℕ) (id : String) (tc : TurnCycle) (steps : List DecisionStepBundle)
      : Type 0 where
    pub of_id : tc.turn_cycle_id ≡ id
    pub of_run : tc.run_id ≡ deps.run_id
    pub of_number : tc.turn_number ≡ deps.turn_number
    pub of_attempt : tc.attempt_index ≡ i
    pub of_save : tc.save_point_id ≡ save.save_point_id
    pub counted : tc.step_count ≡ length steps
    pub degraded : tc.visually_degraded ≡ any_degraded steps

  -- The record of an attempt that is given up: it has steps, none of which ended the turn, in the
  -- context that was built when it began.
  pub record IsGivenUp (i : ℕ) (id : String) (before : List Deed) (tc : TurnCycle)
      (steps : List DecisionStepBundle) : Type 0 where
    pub of_turn : IsOfTurn i id tc steps
    pub never_authoritative : tc.is_authoritative ≡ false
    pub as_abandoned : tc.outcome ≡ abandoned
    pub some_step : is_nonempty steps ≡ true
    pub unfinished :
        Unfinished
          (deps.build_loop_context before id)
          (start (deps.build_loop_context before id))
          1
          steps
          tc.final_no_progress_streak

  -- The record of the attempt that ended the turn: a whole attempt.
  pub record IsFinal (i : ℕ) (id : String) (before : List Deed) (tc : TurnCycle)
      (steps : List DecisionStepBundle) : Type 0 where
    pub of_turn : IsOfTurn i id tc steps
    pub authoritative : tc.is_authoritative ≡ true
    pub attempt :
        Attempt
          (deps.build_loop_context before id)
          (start (deps.build_loop_context before id))
          1
          steps
          tc.outcome
          tc.final_no_progress_streak

  pub data Follows (d0 : List Deed) : Phase → List Deed → Type 0 where
    begins : Follows d0 waiting d0
    probes : {p : Phase} {ds : List Deed} → Follows d0 p ds → Follows d0 p (probed ∷ ds)
    passes : {i : ℕ} {ds : List Deed} → Follows d0 (ready i) ds → Follows d0 (ready i) (passed ∷ ds)
    saves :
        {ds : List Deed} (name : String)
        → Follows d0 waiting ds
        → Follows d0 (taking name) (saved name ∷ ds)
    verifies :
        {ds : List Deed} {name : String} {i : ℕ}
        → Follows d0 (taking name) ds
        → IsVerified deps ds name
        → IsPoint deps name save
        → i ≡ deps.attempt_index_base
        → Follows d0 (ready i) ds
    plays :
        {ds before : List Deed} {i : ℕ} (id : String) (calls : List Call)
        → Follows d0 (ready i) before
        → id ≡ deps.new_cycle_id before
        → Follows d0 (ready i) ds
        → Follows d0 (over i id before) (played id calls ∷ ds)
    gives_up :
        {ds before : List Deed} {i : ℕ} {id : String} {tc : TurnCycle}
        {steps : List DecisionStepBundle}
        → Follows d0 (over i id before) ds
        → IsGivenUp i id before tc steps
        → Follows d0 (given_up i) (wrote_cycle tc steps ∷ ds)
    recovers :
        {ds before : List Deed} {i : ℕ} {id : String}
        → Follows d0 (over i id before) ds
        → Follows d0 (mending i) (recovering save ∷ ds)
    recovers_written :
        {ds : List Deed} {i : ℕ}
        → Follows d0 (given_up i) ds
        → Follows d0 (mending i) (recovering save ∷ ds)
    replays : {ds : List Deed} {i : ℕ} → Follows d0 (mending i) ds → Follows d0 (ready (suc i)) ds
    seals :
        {ds before : List Deed} {i : ℕ} {id : String} {tc : TurnCycle}
        {steps : List DecisionStepBundle}
        → Follows d0 (over i id before) ds
        → IsFinal i id before tc steps
        → Follows d0 (sealed tc) (wrote_cycle tc steps ∷ ds)
    looks :
        {ds : List Deed} {tc : TurnCycle}
        → Follows d0 (sealed tc) ds
        → tc.outcome ≡ ended_on_no_progress
        → Follows d0 (asking tc) (looked ∷ ds)
    ends :
        {ds : List Deed} {tc : TurnCycle} (name : String)
        → Follows d0 (asking tc) ds
        → Follows d0 (ending tc) (executed name ∷ ds)
    reads :
        {ds : List Deed} {tc : TurnCycle}
        → Follows d0 (ending tc) ds
        → Follows d0 (reading tc) (looked ∷ ds)

-- The game confirmed the end of the turn: the action was authorized on what was read before, and
-- verified as applied on what was read after it.
pub record IsConfirmed (ctx : DecisionLoopContext) : Type 0 where
  pub declaration : ParityDeclaration
  pub pre : Observation
  pub post : Observation
  pub at : Timestamp
  pub verification : ExecutionVerification
  pub read_before : observed ctx [] ≡ ok pre
  pub allowed :
      dispatch_action ctx.python ctx.catalog in_game end_turn_declaration_id pre null
      ≡ ok (authorized declaration)
  pub read_after : observed ctx (after_end_turn ctx declaration) ≡ ok post
  pub verified : verify_execution ctx.python declaration pre post null at ≡ ok verification
  pub as_applied : verification.execution.outcome ≡ applied
