-- ===== src/Run/Attempt.antt =====
-- What an attempt at a turn is, apart from the code of its loop: the steps in their order, how they
-- count towards the backstop, and the two ways in which the attempt may end.
use civ_sim_taskify.Prelude.{ℕ, ◌+◌, ◌≡◌, true, false, List, [], ◌∷◌}
use civ_sim_taskify.Models.Turn.{
  Observation, changed_state, TurnOutcome, ended_by_agent, ended_on_no_progress,
}
use civ_sim_taskify.NoProgress.{NoProgressTracker, record_progress, tripped}
use civ_sim_taskify.Errors.{ok}
use civ_sim_taskify.Models.Run.{Timestamp}
use civ_sim_taskify.Act.Registry.{ParityDeclaration}
use civ_sim_taskify.Act.Dispatch.{authorized}
use civ_sim_taskify.Act.Camera.{dispatch_decision}
use civ_sim_taskify.Act.Verify.{verify_execution}
use civ_sim_taskify.Run.LoopState.{DecisionLoopContext, DecisionStepBundle}
use civ_sim_taskify.Run.Step.{target_of}

-- The tracker after a step.
abbrev pub after : NoProgressTracker → DecisionStepBundle → NoProgressTracker
after t b = record_progress t b.step.progress

module _ (ctx : DecisionLoopContext) where
  -- The action that the step's decision names was authorized on the step's observation, and verified
  -- by its own declaration, from that observation to one that was read for the step after it.
  pub record IsVerified (b : DecisionStepBundle) : Type 0 where
    pub declaration : ParityDeclaration
    pub dispatched :
        dispatch_decision ctx.python ctx.catalog b.decision.action_declaration_id b.observation
          (target_of b.decision.parameters)
        ≡ ok (authorized declaration)
    pub after_it : Observation
    pub read_next : after_it.decision_step_id ≡ b.step.step_index + 1
    pub at : Timestamp
    pub confirmed :
        verify_execution ctx.python declaration b.observation after_it
          (target_of b.decision.parameters)
          at
        ≡ ok (record { execution = b.decision.execution; progress = b.step.progress })

  -- A step is recorded under its index, together with the observation, the decision and the call of
  -- that step, and with the streak that its progress leaves. Only a verified execution counts as
  -- progress.
  pub record IsStep (t : NoProgressTracker) (i : ℕ) (b : DecisionStepBundle) : Type 0 where
    pub indexed : b.step.step_index ≡ i
    pub of_turn : b.step.turn_cycle_id ≡ ctx.turn_cycle_id
    pub of_call : b.decision.model_call_id ≡ b.model_call.model_call_id
    pub observed : b.observation.decision_step_id ≡ b.step.decision_step_id
    pub decided : b.decision.decision_step_id ≡ b.step.decision_step_id
    pub called : b.model_call.decision_step_id ≡ b.step.decision_step_id
    pub streak : b.step.no_progress_streak_after ≡ (after t b).streak
    pub verified : b.step.progress ≡ changed_state → IsVerified b

  -- An attempt from a tracker and an index on: its steps, its outcome and its final streak.
  pub data Attempt
      : NoProgressTracker → ℕ → List DecisionStepBundle → TurnOutcome → ℕ → Type 0 where
    by_agent :
        {t : NoProgressTracker} {i : ℕ} {b : DecisionStepBundle}
        → IsStep t i b
        → b.decision.is_end_turn ≡ true
        → Attempt t i (b ∷ []) ended_by_agent (after t b).streak
    by_backstop :
        {t : NoProgressTracker} {i : ℕ} {b : DecisionStepBundle}
        → IsStep t i b
        → b.decision.is_end_turn ≡ false
        → tripped (after t b) ≡ true
        → Attempt t i (b ∷ []) ended_on_no_progress (after t b).streak
    goes_on :
        {t : NoProgressTracker} {i : ℕ} {b : DecisionStepBundle} {bs : List DecisionStepBundle}
        {o : TurnOutcome} {n : ℕ}
        → IsStep t i b
        → b.decision.is_end_turn ≡ false
        → tripped (after t b) ≡ false
        → Attempt (after t b) (i + 1) bs o n
        → Attempt t i (b ∷ bs) o n

  -- The steps of an attempt that has not ended, and its streak.
  pub data Unfinished : NoProgressTracker → ℕ → List DecisionStepBundle → ℕ → Type 0 where
    so_far : {t : NoProgressTracker} {i : ℕ} → Unfinished t i [] t.streak
    went_on :
        {t : NoProgressTracker} {i : ℕ} {b : DecisionStepBundle} {bs : List DecisionStepBundle}
        {n : ℕ}
        → IsStep t i b
        → b.decision.is_end_turn ≡ false
        → tripped (after t b) ≡ false
        → Unfinished (after t b) (i + 1) bs n
        → Unfinished t i (b ∷ bs) n
