-- ===== src/Run/Step.antt =====
-- run/decision_loop.py: one round of the loop, from a fresh observation to the next.
use civ_sim_taskify.Prelude.{
  ◌+◌, String, Bool, true, false, ◌&&◌, Option, none, some, [], ◌∷◌, ◌++◌, if◌then◌else◌,
}
use civ_sim_taskify.Predicate.Values.{get_field}
use civ_sim_taskify.Models.Run.{Timestamp, is_none}
use civ_sim_taskify.Models.Turn.{
  Observation, ScreenCapture, StepProgress, TurnOutcome, ended_by_agent, ended_on_no_progress,
}
use civ_sim_taskify.Models.Turn
use civ_sim_taskify.Models.Value.{Value, null, Fields}
use civ_sim_taskify.Provider.Port.{RawDecision}
use civ_sim_taskify.Provider.Accounting.{ModelCall}
use civ_sim_taskify.NoProgress.{record_progress, tripped, build_no_progress_event}
use civ_sim_taskify.Act.Registry.{ParityDeclaration}
use civ_sim_taskify.Act.Dispatch.{
  DispatchOutcome, authorized, refused, ActionExecution, rejection_to_execution,
}
use civ_sim_taskify.Act.Camera.{dispatch_decision}
use civ_sim_taskify.Act.Verify.{verify_execution}
use civ_sim_taskify.Agent.Decisions.{Decision, DecisionTrigger, is_response, build_decision}
use civ_sim_taskify.Run.Actions.{pure, ◌>>=◌, ◌>>◌}
use civ_sim_taskify.Run.LoopState.{
  acted, DecisionLoopContext, DecisionStepBundle, DecisionLoopResult, Do, lift, calls_now, tell,
}
use civ_sim_taskify.Run.FreshRead.{FreshObservation, observe_or_wrap, resolve_trigger}
pub use civ_sim_taskify.Run.Requests.{
  Position, Prepared, write_unshown, of_trigger, is_parity_violation, of_boundary, with_images,
  is_decision, decided,
}
unfoldable pub use civ_sim_taskify.Run.Requests.{run_forbidden_literals, prepare, ask}

pub data Round : Type 0 where
  ended : DecisionLoopResult → Round
  carried_on : Position → Round

-- What was carried out: the execution, its progress and the next observation.
pub record CarriedOut : Type 0 where
  pub execution : ActionExecution
  pub progress : StepProgress
  pub fresh : FreshObservation

abbrev pub target_of : Fields → Value
target_of fs = elim (get_field fs "target") [ some v ↦ v | none ↦ null ]

-- `replace(raw_decision, prompt_type=prompt_type)` for an answer to a prompt that does not name it.
abbrev pub named : DecisionTrigger → Option String → RawDecision → RawDecision
named trigger prompt raw =
    if is_response trigger && is_none raw.prompt_type
    then record raw { prompt_type = prompt }
    else raw

module _ (ctx : DecisionLoopContext) where
  abbrev pub next_observation : Position → Do FreshObservation
  next_observation p = observe_or_wrap ctx (p.step_index + 1) p.steps p.events p.tracker.streak

  -- `ctx.execute_action`
  abbrev pub perform : ParityDeclaration → RawDecision → Do (Unit {0})
  perform d raw = do
    before ← calls_now
    tell (acted d.declaration_id raw.parameters)
    lift (ctx.execute_action before d.declaration_id raw.parameters (target_of raw.parameters))

  abbrev pub follow : Position → Observation → RawDecision → DispatchOutcome → Do CarriedOut
  follow p o raw (refused reason) = do
    now ← calls_now
    e ← lift (rejection_to_execution (refused reason) (ctx.clock now 1))
    fresh ← next_observation p
    pure (record { execution = e; progress = Turn.rejected; fresh = fresh })
  follow p o raw (authorized d) = do
    perform d raw
    fresh ← next_observation p
    now ← calls_now
    v ← lift (
        verify_execution ctx.python d o fresh.observation (target_of raw.parameters)
          (ctx.clock now 1))
    pure (record { execution = v.execution; progress = v.progress; fresh = fresh })

  -- The decision is dispatched, executed if it is authorized, and followed by a fresh observation.
  unfoldable pub carry_out : Position → Observation → RawDecision → Do CarriedOut
  carry_out p o raw = do
    outcome ← lift (
        dispatch_decision ctx.python ctx.catalog raw.action_declaration_id o
          (target_of raw.parameters))
    follow p o raw outcome

  -- The two ways out of the loop, or on to the next round.
  abbrev pub leave : Position → Bool → Timestamp → FreshObservation → Do Round
  leave q true at fresh = do
    write_unshown fresh.step_capture
    pure (
        ended (record {
          outcome = ended_by_agent;
          steps = q.steps;
          final_no_progress_streak = q.tracker.streak;
          events = q.events;
        }))
  leave q false at fresh =
      if tripped q.tracker
      then (do
        write_unshown fresh.step_capture
        pure (
            ended (record {
              outcome = ended_on_no_progress;
              steps = q.steps;
              final_no_progress_streak = q.tracker.streak;
              events =
                  q.events
                  ++ (build_no_progress_event ctx.run_id ctx.turn_number at q.tracker.streak
                        (some q.step_index)
                      ∷ []);
            })))
      else pure (
          carried_on (record q {
            step_index = q.step_index + 1;
            observation = fresh.observation;
            step_capture = fresh.step_capture;
          }))

  -- The step's records, in one bundle.
  abbrev pub bundle_of :
      Position
      → Timestamp
      → Timestamp
      → Observation
      → Decision
      → ModelCall
      → CarriedOut
      → DecisionStepBundle
  bundle_of p started at o decision call out = record {
    step = record {
      decision_step_id = p.step_index;
      turn_cycle_id = ctx.turn_cycle_id;
      step_index = p.step_index;
      observation_id = o.observation_id;
      decision_id = decision.decision_id;
      model_call_id = call.model_call_id;
      progress = out.progress;
      no_progress_streak_after = (record_progress p.tracker out.progress).streak;
      visually_degraded = p.step_capture.visually_degraded;
      started_at = started;
      ended_at = at;
    };
    observation = o;
    decision = decision;
    model_call = call;
  }

  abbrev pub with_step : Position → CarriedOut → DecisionStepBundle → Position
  with_step p out bundle = record p {
    tracker = record_progress p.tracker out.progress;
    steps = p.steps ++ (bundle ∷ []);
    events = p.events ++ out.fresh.events;
  }

  -- The records of the step, and the end of the round.
  unfoldable pub conclude :
      Position
      → Timestamp
      → DecisionTrigger
      → Observation
      → RawDecision
      → ModelCall
      → CarriedOut
      → Do Round
  conclude p started trigger o raw call out = do
    now ← calls_now
    decision ←
        lift (build_decision raw p.step_index p.step_index call.model_call_id trigger out.execution)
    let bundle = bundle_of p started (ctx.clock now 2) o decision call out
    leave (with_step p out bundle) raw.is_end_turn (ctx.clock now 3) out.fresh

  -- One pass through the body of the loop.
  unfoldable pub round : Bool → Position → Do Round
  round permitted p = do
    now ← calls_now
    let started = ctx.clock now 4
    (trigger, prompt) ←
        of_trigger p.step_capture (resolve_trigger ctx p.observation p.step_index started)
    prepared ← prepare ctx permitted p
    (answer, call) ← ask ctx p.step_index prepared.request
    let raw = named trigger prompt answer
    out ← carry_out p prepared.observation raw
    conclude p started trigger prepared.observation raw call out
