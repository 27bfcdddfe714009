-- ===== src/Runner/Rewind/Strands.antt =====
-- A rewind to a turn that a branch starts from.
use civ_sim_taskify.Prelude.{ℕ, ◌≡◌, ◌≢◌, true, Option, List}
use civ_sim_taskify.Models.Run.{IsValid}
use civ_sim_taskify.Store.Guard.{TurnCycle}
use civ_sim_taskify.Resilience.Recovery.{SavePoint}
use civ_sim_taskify.Resilience.Recovery.Outcomes.{IsRecoverable}
use civ_sim_taskify.Run.Actions.{Outcome, failed, returned}
use civ_sim_taskify.Turn.State.{TurnCycleDependencies}
use civ_sim_taskify.Turn.Attempts.Plays.{Plays}
use civ_sim_taskify.Runner.State.{Runner, RunnerDependencies}
use civ_sim_taskify.Runner.Commands.{request_resume}
use civ_sim_taskify.Runner.Rewind.{Rewinding, ResumeFailure, refused, played_again, resume_from}

module _ (deps : RunnerDependencies) (list_save_points : List SavePoint → List SavePoint)
    (parent_turns : List ℕ) where
  abbrev command : ℕ → Rewinding → Outcome ResumeFailure (Unit {0}) × Rewinding
  command = resume_from deps list_save_points parent_turns

  -- A run that plays by every record, with nothing scheduled that would play it: the commands that
  -- schedule the play loop are refused or do not schedule it.
  pub record IsStranded (v : Rewinding) : Type 0 where
    pub plays : Plays v.runner.state.run
    pub no_resume : (request_resume deps v.runner).0 ≢ returned true
    pub no_rewind : (t : ℕ) → command t v ≡ (failed refused, v)

  -- A run that can be rewound is one that the recovery takes, once it is unpaused.
  record IsReady (r : Runner) : Type 0 where
    after : Runner
    done : played_again deps list_save_points parent_turns r ≡ (returned tt, after)
    valid : IsValid after.state.run
    recoverable : IsRecoverable after.state.run.lifecycle_state

  module _ (turn : ℕ) (s : Rewinding) (save : SavePoint) (tc : TurnCycle) where
    abbrev td : TurnCycleDependencies
    td = deps.build_turn_dependencies turn

    abbrev through : Option ℕ
    through = s.runner.state.current_turn
