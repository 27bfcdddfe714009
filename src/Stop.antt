-- ===== src/Stop.antt =====
-- civsim_harness/run/stop.py: which stop resolution the facts of this moment lead to.
pub mod Precedence
mod Tests
use civ_sim_taskify.Prelude.{
  ℕ, ◌≡◌, Bool, true, false, ◌&&◌, Option, none, some, List, [], ◌∷◌, ◌++◌, leb, if◌then◌else◌,
}
use civ_sim_taskify.Models.Run.{
  StopResolution, turn_reached, victory, defeat, operator_stop, unrecoverable_failure,
}

-- models/config.py: the configured condition.
pub data StopCondition : Type 0 where
  at_turn : ℕ → StopCondition
  on_game_outcome : StopCondition
  on_operator_stop : StopCondition

pub data GameOutcome : Type 0 where
  won lost : GameOutcome

pub record StopEvaluation : Type 0 where
  pub current_turn : ℕ
  pub game_outcome : Option GameOutcome
  pub operator_stop_requested : Bool
  pub unrecoverable : Bool

pub record StopDecision : Type 0 where
  pub resolution : Option StopResolution
  pub coincident : List StopResolution

-- One entry of the list that the function builds.
abbrev pub when : Bool → StopResolution → List StopResolution
when true r = r ∷ []
when false r = []

abbrev pub outcome_entry : Option GameOutcome → List StopResolution
outcome_entry none = []
outcome_entry (some GameOutcome.won) = victory ∷ []
outcome_entry (some GameOutcome.lost) = defeat ∷ []

abbrev pub turn_is_reached : StopCondition → ℕ → Bool
turn_is_reached (at_turn n) now = leb n now
turn_is_reached on_game_outcome now = false
turn_is_reached on_operator_stop now = false

-- `triggered`, in the order of precedence.
unfoldable pub triggered : StopCondition → StopEvaluation → List StopResolution
triggered c e =
    when e.unrecoverable unrecoverable_failure
    ++ (outcome_entry e.game_outcome
        ++ (when e.operator_stop_requested operator_stop
            ++ when (turn_is_reached c e.current_turn) turn_reached))

abbrev pub split_first : List StopResolution → StopDecision
split_first [] = record { resolution = none; coincident = [] }
split_first (r ∷ rs) = record { resolution = some r; coincident = rs }

unfoldable pub evaluate_stop : StopCondition → StopEvaluation → StopDecision
unfolding triggered
evaluate_stop c e = split_first (triggered c e)
