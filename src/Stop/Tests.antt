-- ===== src/Stop/Tests.antt =====
-- civsim_harness/run/stop.py on one turn on which two conditions hold.
use civ_sim_taskify.Prelude.{◌≡◌, refl, true, false, none, some, [], ◌∷◌}
use civ_sim_taskify.Models.Run.{StopResolution, turn_reached, victory}
use civ_sim_taskify.Stop.{at_turn, won, StopEvaluation, evaluate_stop}
use civ_sim_taskify.Stop.Precedence.{holds, Outranks, evaluate_stop_precedence}

abbrev last_turn : StopEvaluation
last_turn = record {
  current_turn = 50;
  game_outcome = some won;
  operator_stop_requested = false;
  unrecoverable = false;
}

victory_first :
    evaluate_stop (at_turn 50) last_turn
    ≡ record { resolution = some victory; coincident = turn_reached ∷ [] }
unfolding evaluate_stop
victory_first = refl

evaluate_stop_precedence_example :
    ((r : StopResolution)
      → holds (at_turn 50) last_turn r ≡ true
      → Outranks (evaluate_stop (at_turn 50) last_turn).resolution r)
    × ((s : StopResolution)
        → (evaluate_stop (at_turn 50) last_turn).resolution ≡ some s
        → holds (at_turn 50) last_turn s ≡ true)
    × (((r : StopResolution) → holds (at_turn 50) last_turn r ≡ false)
        → evaluate_stop (at_turn 50) last_turn ≡ record { resolution = none; coincident = [] })
evaluate_stop_precedence_example = evaluate_stop_precedence (at_turn 50) last_turn
