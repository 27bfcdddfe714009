-- ===== src/Run/DecisionLoop.antt =====
-- run/decision_loop.py: the loop of one turn attempt, on fuel for the rounds.
pub mod Rule
pub mod Loops
pub mod Starts
pub mod Exits
pub mod Trace
pub mod Comparability
use civ_sim_taskify.Prelude.{ℕ, zero, suc, Bool, Option, List, [], ◌∷◌}
use civ_sim_taskify.Errors.{Result}
use civ_sim_taskify.Models.Run.{Run}
use civ_sim_taskify.NoProgress.{new_tracker}
use civ_sim_taskify.Run.Actions.{
  Action, Outcome, failed, returned, pure, fail, gets, and_then, ◌>>=◌, ◌>>◌,
}
use civ_sim_taskify.Run.LoopState.{
  Live, DecisionLoopContext, DecisionLoopResult, Failure, out_of_fuel, Do, lift,
}
use civ_sim_taskify.Run.FreshRead.{observe_or_wrap, images_permitted_for_run}
use civ_sim_taskify.Run.Step.{Position, Round, ended, carried_on, round}

abbrev pub next_round : (Position → Do DecisionLoopResult) → Round → Do DecisionLoopResult
next_round loop (ended r) = pure r
next_round loop (carried_on p) = loop p

module _ (ctx : DecisionLoopContext) where
  -- `while True`
  unfoldable pub rounds : ℕ → Bool → Position → Do DecisionLoopResult
  rounds zero permitted p = fail (out_of_fuel p.steps)
  rounds (suc n) permitted p = round ctx permitted p >>= next_round (rounds n permitted)

  unfoldable pub run_decision_loop : ℕ → Do DecisionLoopResult
  unfolding images_permitted_for_run
  run_decision_loop fuel = do
    tracker ← lift (new_tracker ctx.no_progress_step_limit)
    permitted ← gets (λ s. images_permitted_for_run s.run)
    fresh ← observe_or_wrap ctx 1 [] [] tracker.streak
    rounds fuel permitted (record {
      step_index = 1;
      observation = fresh.observation;
      step_capture = fresh.step_capture;
      tracker = tracker;
      steps = [];
      events = fresh.events;
    })
