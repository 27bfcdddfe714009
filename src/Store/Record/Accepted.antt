-- ===== src/Store/Record/Accepted.antt =====
-- The store accepts what the decision loop hands over.
use civ_sim_taskify.Prelude.{
  ℕ, ◌+◌, ◌≡◌, refl, ap, ◌∙◌, ◌⊎◌, inl, inr, false, Option, none, some, List, [], ◌∷◌, length,
  eq_iff, arith, ==_iff,
}
use civ_sim_taskify.Errors.{ok}
use civ_sim_taskify.Models.Turn.{TurnOutcome}
use civ_sim_taskify.NoProgress.{NoProgressTracker}
use civ_sim_taskify.Run.Actions.{Outcome, failed, returned}
use civ_sim_taskify.Run.LoopState.{
  Live, DecisionLoopContext, DecisionStepBundle, DecisionLoopResult, Failure, raised,
  mid_turn_observation_failure, unknown_screen_encountered, out_of_fuel,
}
use civ_sim_taskify.Run.Attempt.{
  after, IsStep, Attempt, by_agent, by_backstop, goes_on, Unfinished, so_far, went_on,
}
use civ_sim_taskify.Run.DecisionLoop.{run_decision_loop}
use civ_sim_taskify.Run.DecisionLoop.Starts.{start}
use civ_sim_taskify.Run.DecisionLoop.Exits.{Implements, run_decision_loop-Implements}
use civ_sim_taskify.Store.Record.{
  TurnCycleRecord, validate_bundle, validate_bundles, not_after, check_order, validate_record,
}

abbrev pub record_of : DecisionLoopContext → List DecisionStepBundle → TurnCycleRecord
record_of ctx steps = record {
  turn_cycle_id = ctx.turn_cycle_id;
  step_count = length steps;
  steps = steps;
}

-- The bundles and the record of the steps pass their validators.
abbrev pub IsAccepted : DecisionLoopContext → List DecisionStepBundle → Type 0
IsAccepted ctx steps =
    (validate_bundles steps ≡ ok tt)
    × (validate_record (record_of ctx steps) ≡ ok (record_of ctx steps))

module _ (ctx : DecisionLoopContext) where
  IsStep-valid :
      (t : NoProgressTracker) (i : ℕ) (b : DecisionStepBundle)
      → IsStep ctx t i b
      → validate_bundle b ≡ ok b
  unfolding validate_bundle
  IsStep-valid t i b step =
      rw ((==_iff b.observation.decision_step_id b.step.decision_step_id).1 step.observed) (
        rw ((==_iff b.decision.decision_step_id b.step.decision_step_id).1 step.decided) (
          rw ((==_iff b.model_call.decision_step_id b.step.decision_step_id).1 step.called) (
            rw ((==_iff b.decision.model_call_id b.model_call.model_call_id).1 step.of_call) refl)))

  -- In order, each step of the turn.
  abbrev InOrder : ℕ → List DecisionStepBundle → Type 0
  InOrder i [] = Unit
  InOrder i (b ∷ bs) =
      (validate_bundle b ≡ ok b)
      × (b.step.step_index ≡ i)
      × (b.step.turn_cycle_id ≡ ctx.turn_cycle_id)
      × InOrder (i + 1) bs

  Attempt-InOrder :
      (t : NoProgressTracker) (i : ℕ) (bs : List DecisionStepBundle) (o : TurnOutcome) (k : ℕ)
      → Attempt ctx t i bs o k
      → InOrder i bs
  Attempt-InOrder t i [] o k h = elim h [ ]
  Attempt-InOrder t i (b ∷ []) o k (by_agent step flag) =
      (IsStep-valid t i b step, step.indexed, step.of_turn, tt)
  Attempt-InOrder t i (b ∷ []) o k (by_backstop step flag trip) =
      (IsStep-valid t i b step, step.indexed, step.of_turn, tt)
  Attempt-InOrder t i (b ∷ bs) o k (goes_on step flag trip a) = (
    IsStep-valid t i b step,
    step.indexed,
    step.of_turn,
    Attempt-InOrder (after t b) (i + 1) bs o k a,
  )

  Unfinished-InOrder :
      (t : NoProgressTracker) (i : ℕ) (bs : List DecisionStepBundle) (k : ℕ)
      → Unfinished ctx t i bs k
      → InOrder i bs
  Unfinished-InOrder t i [] k so_far = tt
  Unfinished-InOrder t i (b ∷ bs) k (went_on step flag trip u) = (
    IsStep-valid t i b step,
    step.indexed,
    step.of_turn,
    Unfinished-InOrder (after t b) (i + 1) bs k u,
  )

  bundles_valid :
      (i : ℕ) (bs : List DecisionStepBundle) → InOrder i bs → validate_bundles bs ≡ ok tt
  unfolding validate_bundles
  bundles_valid i [] h = refl
  bundles_valid i (b ∷ bs) (v, index, turn, h) = rw v (bundles_valid (i + 1) bs h)

  order_valid :
      (before : Option ℕ) (i : ℕ) (bs : List DecisionStepBundle)
      → not_after before i ≡ false
      → InOrder i bs
      → check_order ctx.turn_cycle_id before bs ≡ ok tt
  unfolding check_order
  order_valid before i [] fits h = refl
  order_valid before i (b ∷ bs) fits (v, index, turn, h) =
      rw ((eq_iff b.step.turn_cycle_id ctx.turn_cycle_id).1 turn) (
        rw (ap (not_after before) index ∙ fits)
          (order_valid (some b.step.step_index) (i + 1) bs (ground (arith, index)) h))

  record_valid :
      (i : ℕ) (b : DecisionStepBundle) (bs : List DecisionStepBundle)
      → InOrder i (b ∷ bs)
      → IsAccepted ctx (b ∷ bs)
  unfolding validate_record
  record_valid i b bs h =
      (bundles_valid i (b ∷ bs) h, rw (order_valid none i (b ∷ bs) refl h) (ground arith))

  Attempt-IsAccepted :
      (t : NoProgressTracker) (i : ℕ) (bs : List DecisionStepBundle) (o : TurnOutcome) (k : ℕ)
      → Attempt ctx t i bs o k
      → InOrder i bs
      → IsAccepted ctx bs
  Attempt-IsAccepted t i [] o k a h = elim a [ ]
  Attempt-IsAccepted t i (b ∷ bs) o k a h = record_valid i b bs h

  some_or_none :
      (i : ℕ) (bs : List DecisionStepBundle) → InOrder i bs → (bs ≡ []) ⊎ IsAccepted ctx bs
  some_or_none i [] h = inl refl
  some_or_none i (b ∷ bs) h = inr (record_valid i b bs h)

  -- What the loop hands over: the steps of an attempt, or those of one that is abandoned, which the
  -- caller writes if there are any.
  abbrev pub Written : Outcome Failure DecisionLoopResult × Live → Type 0
  Written (returned r, s) = IsAccepted ctx r.steps
  Written (failed (mid_turn_observation_failure steps events k), s) =
      (steps ≡ []) ⊎ IsAccepted ctx steps
  Written (failed (out_of_fuel steps), s) = Unit
  Written (failed (raised e), s) = Unit
  Written (failed (unknown_screen_encountered e), s) = Unit

  written :
      (fuel : ℕ) (r : Outcome Failure DecisionLoopResult × Live) → Implements ctx fuel r → Written r
  written fuel (returned r, s) a =
      Attempt-IsAccepted (start ctx) 1 r.steps r.outcome r.final_no_progress_streak a
        (Attempt-InOrder (start ctx) 1 r.steps r.outcome r.final_no_progress_streak a)
  written fuel (failed (mid_turn_observation_failure steps events k), s) u =
      some_or_none 1 steps (Unfinished-InOrder (start ctx) 1 steps k u)
  written fuel (failed (out_of_fuel steps), s) h = tt
  written fuel (failed (raised e), s) h = tt
  written fuel (failed (unknown_screen_encountered e), s) h = tt

  -- What the decision loop hands over passes every validator of the store's record under the turn
  -- of the loop and the number of its steps: the steps of an attempt that ended, and those of one
  -- that was abandoned for want of an observation, unless there is none.
  pub run_decision_loop-Written : (fuel : ℕ) (s : Live) → Written (run_decision_loop ctx fuel s)
  run_decision_loop-Written fuel s =
      written fuel (run_decision_loop ctx fuel s) (run_decision_loop-Implements ctx fuel s)
