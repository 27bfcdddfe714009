-- ===== src/Run/Requests.antt =====
-- run/decision_loop.py: from an observation to the request of its step, and the provider's answer.
use civ_sim_taskify.Prelude.{
  ℕ, String, Bool, true, false, Option, none, some, List, [], ◌∷◌, leb, length, if◌then◌else◌,
}
use civ_sim_taskify.Predicate.Values.{codes}
use civ_sim_taskify.Errors.{Error, Result, ok, err, provider_chain_exhausted, parity_violation}
use civ_sim_taskify.Models.Event.{RunEvent}
use civ_sim_taskify.Models.Turn.{Observation, ScreenCapture}
use civ_sim_taskify.Provider.Port.{
  Image, RawDecision, DecisionRequest, CallOutcome, decision_returned,
}
use civ_sim_taskify.Provider.Accounting.{ModelCall, build_model_call}
use civ_sim_taskify.NoProgress.{NoProgressTracker}
use civ_sim_taskify.Observe.Capture.{StepCapture}
use civ_sim_taskify.Parity.Forbidden.{enforce_parity_boundary}
use civ_sim_taskify.Agent.Decisions.{DecisionTrigger}
use civ_sim_taskify.Agent.Context.{assemble_context}
use civ_sim_taskify.Run.Actions.{pure, fail, only_if, ◌>>=◌, ◌>>◌}
use civ_sim_taskify.Run.LoopState.{
  wrote_capture, asked, wrote_call, DecisionLoopContext, DecisionStepBundle, raised,
  unknown_screen_encountered, Do, lift, calls_now, tell,
}
use civ_sim_taskify.Run.FreshRead.{Routed, routed, unrecognized, step_images, as_shown}

-- The variables that the loop carries from round to round.
pub record Position : Type 0 where
  pub step_index : ℕ
  pub observation : Observation
  pub step_capture : StepCapture
  pub tracker : NoProgressTracker
  pub steps : List DecisionStepBundle
  pub events : List RunEvent

-- A request with what it shows: the observation with its listing of captures, and the capture's
-- record as it is written.
pub record Prepared : Type 0 where
  pub observation : Observation
  pub capture : ScreenCapture
  pub request : DecisionRequest

abbrev distinctive : (String → String) → List String → List String
distinctive strip [] = []
distinctive strip (v ∷ vs) =
    let rest = distinctive strip vs in if leb 8 (length (codes (strip v))) then v ∷ rest else rest

-- `_run_forbidden_literals`
unfoldable pub run_forbidden_literals : DecisionLoopContext → List String
run_forbidden_literals ctx =
    distinctive ctx.strip
      (ctx.run_id ∷ ctx.turn_cycle_id ∷ ctx.model.model ∷ ctx.model.provider ∷ [])

-- The record of a capture that reached no request.
abbrev pub write_unshown : StepCapture → Do (Unit {0})
write_unshown c = tell (wrote_capture c.capture c.blob)

abbrev pub of_trigger : StepCapture → Result Routed → Do (DecisionTrigger × Option String)
of_trigger c (ok (routed trigger prompt)) = pure (trigger, prompt)
of_trigger c (ok (unrecognized e)) = write_unshown c >> fail (unknown_screen_encountered e)
of_trigger c (err e) = fail (raised e)

abbrev pub is_parity_violation : Error → Bool
is_parity_violation parity_violation = true
is_parity_violation e = false

abbrev pub of_boundary : StepCapture → Result (Unit {0}) → Do (Unit {0})
of_boundary c (ok u) = pure tt
of_boundary c (err e) = only_if (is_parity_violation e) (write_unshown c) >> fail (raised e)

abbrev pub with_images :
    Observation → ScreenCapture → List Image → Result (Observation × ScreenCapture)
with_images o c [] = ok (o, c)
with_images o c (i ∷ is) = elim (as_shown c) [
  | ok d ↦ ok (record o { captures = d.capture_id ∷ [] }, d)
  | err e ↦ err e
]

abbrev pub is_decision : CallOutcome → Bool
is_decision decision_returned = true
is_decision o = false

module _ (ctx : DecisionLoopContext) where
  -- From the observation to the request, whose capture is written last.
  unfoldable pub prepare : Bool → Position → Do Prepared
  unfolding step_images as_shown
  prepare permitted p = do
    let images = step_images ctx p.observation p.step_capture permitted
    (o, c) ← lift (with_images p.observation p.step_capture.capture images)
    let request = assemble_context ctx.texts o ctx.guidance ctx.model p.step_index images
    of_boundary p.step_capture
        (enforce_parity_boundary ctx.strip o request (run_forbidden_literals ctx))
    tell (wrote_capture c p.step_capture.blob)
    pure (record { observation = o; capture = c; request = request })

  abbrev pub decided : ModelCall → CallOutcome → Option RawDecision → Do (RawDecision × ModelCall)
  decided call o none = tell (wrote_call call) >> fail (raised provider_chain_exhausted)
  decided call o (some raw) =
      if is_decision o
      then pure (raw, call)
      else tell (wrote_call call) >> fail (raised provider_chain_exhausted)

  -- The one call of the provider, and its record.
  unfoldable pub ask : ℕ → DecisionRequest → Do (RawDecision × ModelCall)
  ask step request = do
    before ← calls_now
    tell (asked request)
    response ← lift (ctx.complete before request)
    call ← lift (
        build_model_call
          (record {
            model_call_id = step;
            run_id = ctx.run_id;
            turn_cycle_id = ctx.turn_cycle_id;
            decision_step_id = step;
            model_requested = ctx.model;
          })
          request response)
    decided call response.outcome response.decision
