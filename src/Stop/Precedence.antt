-- ===== src/Stop/Precedence.antt =====
-- The recorded resolution and the coincident ones against the conditions that hold.
use civ_sim_taskify.Prelude.{
  ℕ, ◌≤◌, ◌≡◌, Bool, true, false, Option, none, some, List, [], ◌∷◌, ◌==◌, ◌||◌, arith,
}
use civ_sim_taskify.Models.Run.{
  StopResolution, turn_reached, victory, defeat, operator_stop, unrecoverable_failure,
}
use civ_sim_taskify.Stop.{StopCondition, won, lost, StopEvaluation, evaluate_stop, turn_is_reached}

-- Whether a resolution holds of the facts, one by one.
abbrev pub holds : StopCondition → StopEvaluation → StopResolution → Bool
holds c e unrecoverable_failure = e.unrecoverable
holds c e victory = elim e.game_outcome [
  | some o ↦ elim o [ won ↦ true | lost ↦ false ]
  | none ↦ false
]
holds c e defeat = elim e.game_outcome [
  | some o ↦ elim o [ won ↦ false | lost ↦ true ]
  | none ↦ false
]
holds c e operator_stop = e.operator_stop_requested
holds c e turn_reached = turn_is_reached c e.current_turn

-- Smaller is stronger.
abbrev pub rank : StopResolution → ℕ
rank unrecoverable_failure = 0
rank victory = 1
rank defeat = 2
rank operator_stop = 3
rank turn_reached = 4

abbrev pub member : StopResolution → List StopResolution → Bool
member r [] = false
member r (s ∷ ss) = (rank s == rank r) || member r ss

abbrev pub is_recorded : Option StopResolution → StopResolution → Bool
is_recorded none r = false
is_recorded (some s) r = rank s == rank r

abbrev pub Outranks : Option StopResolution → StopResolution → Type 0
Outranks none r = ⊥
Outranks (some s) r = rank s ≤ rank r

module _ (c : StopCondition) (e : StopEvaluation) where
  -- Every condition that holds is recorded or coincident, never both, and nothing else is.
  pub evaluate_stop_complete :
      (r : StopResolution)
      → ((is_recorded (evaluate_stop c e).resolution r || member r (evaluate_stop c e).coincident)
          ≡ holds c e r)
        × (is_recorded (evaluate_stop c e).resolution r ≡ true
            → member r (evaluate_stop c e).coincident ≡ false)
  unfolding evaluate_stop
  evaluate_stop_complete r = ground arith

  -- The recorded resolution outranks every condition that holds, and it holds itself; nothing is
  -- recorded, as primary or as coincident, exactly when no condition holds.
  pub evaluate_stop_precedence :
      ((r : StopResolution) → holds c e r ≡ true → Outranks (evaluate_stop c e).resolution r)
      × ((s : StopResolution) → (evaluate_stop c e).resolution ≡ some s → holds c e s ≡ true)
      × (((r : StopResolution) → holds c e r ≡ false)
          → evaluate_stop c e ≡ record { resolution = none; coincident = [] })
  unfolding evaluate_stop
  evaluate_stop_precedence = (
    λ r h. ground arith,
    λ s h. ground arith,
    λ none_holds. ground (
      arith,
      none_holds unrecoverable_failure,
      none_holds victory,
      none_holds defeat,
      none_holds operator_stop,
      none_holds turn_reached,
    ),
  )
