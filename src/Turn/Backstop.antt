-- ===== src/Turn/Backstop.antt =====
-- run/turn_cycle.py: the end of the turn that the harness itself asks of the game when the backstop
-- ended the attempt.
use civ_sim_taskify.Prelude.{String, [], ◌∷◌, List}
use civ_sim_taskify.Errors.{Result, ok, err, backstop_end_turn_not_confirmed}
use civ_sim_taskify.Errors
use civ_sim_taskify.Models.Turn.{Observation}
use civ_sim_taskify.Models.Value.{null, end}
use civ_sim_taskify.Act.Registry.{ParityDeclaration, in_game}
use civ_sim_taskify.Act.Dispatch.{
  DispatchOutcome, authorized, refused, ExecutionOutcome, applied, dispatch_action,
}
use civ_sim_taskify.Act.Verify.{verify_execution}
use civ_sim_taskify.Observe.Assemble.{assemble_observation}
use civ_sim_taskify.Run.Actions.{pure, fail, ◌>>=◌, ◌>>◌}
use civ_sim_taskify.Run.LoopState.{Call, acted, DecisionLoopContext}
use civ_sim_taskify.Run.LoopState
use civ_sim_taskify.Turn.State.{
  looked, executed, TurnCycleDependencies, raised, Do, lift, deeds_now, tell,
}

-- `_END_TURN_DECLARATION_ID`
abbrev pub end_turn_declaration_id : String
end_turn_declaration_id = "turn.end_turn"

module _ (ctx : DecisionLoopContext) where
  -- What is read after the calls so far. The observation is written nowhere, so its identifiers
  -- are nought.
  abbrev pub observed : List Call → Result Observation
  observed calls = Errors.◌>>=◌ (ctx.read_observation_inputs calls) (λ (results, screen).
      assemble_observation ctx.catalog
        (record {
          observation_id = 0;
          decision_step_id = 0;
          assembled_at = ctx.clock calls 0;
          catalog_version = ctx.catalog_version;
        })
        results screen [])

  -- `_fresh_observation`
  unfoldable pub fresh_observation : List Call → Do Observation
  unfolding assemble_observation
  fresh_observation calls = tell looked >> lift (observed calls)

  -- The calls of the context before the second read.
  abbrev pub after_end_turn : ParityDeclaration → List Call
  after_end_turn d = acted d.declaration_id end ∷ LoopState.looked ∷ []

  abbrev pub confirm : String → ExecutionOutcome → Do String
  confirm id applied = pure id
  confirm id o = fail (raised backstop_end_turn_not_confirmed)

  -- The verification of the executed action by what is read back.
  abbrev pub judge_end : String → Observation → ParityDeclaration → Observation → Do String
  judge_end id pre d post = do
    v ← lift (
        verify_execution ctx.python d pre post null
          (ctx.clock (LoopState.looked ∷ after_end_turn d) 1))
    confirm id v.execution.outcome

  abbrev pub read_back : String → Observation → ParityDeclaration → Do String
  read_back id pre d = fresh_observation (after_end_turn d) >>= judge_end id pre d

  abbrev pub on_dispatch : String → Observation → DispatchOutcome → Do String
  on_dispatch id pre (refused reason) = fail (raised backstop_end_turn_not_confirmed)
  on_dispatch id pre (authorized d) = do
    tell (executed d.declaration_id)
    lift (ctx.execute_action (LoopState.looked ∷ []) d.declaration_id end null)
    read_back id pre d

  abbrev pub dispatch_end : String → Observation → Do String
  dispatch_end id pre =
      lift (dispatch_action ctx.python ctx.catalog in_game end_turn_declaration_id pre null)
      >>= on_dispatch id pre

  unfoldable pub end_turn_in : String → Do String
  unfolding fresh_observation
  end_turn_in id = fresh_observation [] >>= dispatch_end id

-- `_dispatch_backstop_end_turn`, with a context that is built anew for the attempt.
unfoldable pub dispatch_backstop_end_turn : TurnCycleDependencies → String → Do String
unfolding end_turn_in
dispatch_backstop_end_turn deps id = do
  ds ← deeds_now
  end_turn_in (deps.build_loop_context ds id) id
