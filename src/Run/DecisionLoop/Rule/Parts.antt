-- ===== src/Run/DecisionLoop/Rule/Parts.antt =====
-- The parts of a round, however they end.
use civ_sim_taskify.Prelude.{
  String, ◌≡◌, refl, ap, ◌∙◌, Bool, true, false, ◌&&◌, Option, some, List, ◌∷◌, Bool-cases, inl,
  inr,
}
use civ_sim_taskify.Errors.{Result, ok, err}
use civ_sim_taskify.Models.Run.{is_none}
use civ_sim_taskify.Provider.Port.{RawDecision, DecisionRequest, DecisionResponse}
use civ_sim_taskify.Observe.Capture.{StepCapture}
use civ_sim_taskify.Parity.Forbidden.{enforce_parity_boundary}
use civ_sim_taskify.Agent.Decisions.{DecisionTrigger, is_response}
use civ_sim_taskify.Agent.Context.{assemble_context}
use civ_sim_taskify.Run.Actions.{Ends, Ends-bind, only_if, fail}
use civ_sim_taskify.Run.LoopState.{
  Call, wrote_capture, asked, Live, DecisionLoopContext, Failure, raised, lift,
}
use civ_sim_taskify.Run.FreshRead.{Routed, routed, unrecognized, step_images}
use civ_sim_taskify.Run.Step.{
  Position, Prepared, write_unshown, of_trigger, of_boundary, is_parity_violation, with_images,
  named, run_forbidden_literals, prepare,
}
use civ_sim_taskify.Run.DecisionLoop.Rule.{IsKept, IsShownIn, called}
use civ_sim_taskify.Run.DecisionLoop.Rule.Reads.{lift-Ends, only_if-Ends}
use civ_sim_taskify.Run.DecisionLoop.Rule.Shown.{shown_images, with_images-IsWritten}

-- What the loop carries is bound to the step that is next, and its capture is not yet shown.
abbrev pub IsBound : Position → Type 0
IsBound p =
    (p.observation.decision_step_id ≡ p.step_index)
    × (p.step_capture.capture.decision_step_id ≡ p.step_index)
    × (p.step_capture.capture.shown_to_agent ≡ false)

-- What was sent and answered: the state behind the call of the provider.
pub record IsAsked (ctx : DecisionLoopContext) (request : DecisionRequest) (answer : RawDecision)
    (s : Live) : Type 0 where
  pub before : List Call
  pub response : DecisionResponse
  pub sent : s.calls ≡ asked request ∷ before
  pub answered : ctx.complete before request ≡ ok response
  pub decided : response.decision ≡ some answer

pub named-same :
    (trigger : DecisionTrigger) (prompt : Option String) (raw : RawDecision)
    → ((named trigger prompt raw).parameters ≡ raw.parameters)
      × ((named trigger prompt raw).action_declaration_id ≡ raw.action_declaration_id)
      × ((named trigger prompt raw).is_end_turn ≡ raw.is_end_turn)
named-same trigger prompt raw = elim (Bool-cases (is_response trigger && is_none raw.prompt_type)) [
  | inl e ↦ rw e (refl, refl, refl)
  | inr e ↦ rw e (refl, refl, refl)
]

module _ (ctx : DecisionLoopContext) (permitted : Bool) (X : Failure → Live → Type 0)
    (I : Bool → Live → Type 0) (kept : IsKept ctx permitted X I) where
  pub of_trigger-Ends :
      (c : StepCapture) (r : Result Routed) (s : Live)
      → c.capture.shown_to_agent ≡ false
      → I true s
      → Ends X (λ _ s'. I true s') (of_trigger c r s)
  of_trigger-Ends c (ok (routed trigger prompt)) s u i = i
  of_trigger-Ends c (ok (unrecognized e)) s u i =
      kept.stalled e true _ (kept.writes true s c.capture c.blob u i)
  of_trigger-Ends c (err e) s u i = kept.quiet e true s i

  of_boundary-Ends :
      (c : StepCapture) (r : Result (Unit {0})) (s : Live)
      → c.capture.shown_to_agent ≡ false
      → I true s
      → Ends X (λ _ s'. s' ≡ s) (of_boundary c r s)
  of_boundary-Ends c (ok v) s u i = refl
  of_boundary-Ends c (err e) s u i =
      Ends-bind X (λ _ s'. I true s') (λ _ s'. s' ≡ s)
        (only_if (is_parity_violation e) (write_unshown c) s) (λ _. fail (raised e))
        (only_if-Ends ctx permitted X I kept (is_parity_violation e) (write_unshown c) true s i
          (kept.writes true s c.capture c.blob u i))
        (λ _ s' j. kept.quiet e true s' j)

  -- The request is one of the step and says truly what it shows.
  abbrev pub IsPrepared : Position → Live → Prepared → Live → Type 0
  IsPrepared p s w s' =
      IsShownIn permitted w.capture w.request
      × (w.observation.decision_step_id ≡ p.step_index)
      × (w.request.step_index ≡ p.step_index)
      × (s' ≡ called (wrote_capture w.capture p.step_capture.blob) s)

  pub prepare-Ends :
      (p : Position) (s : Live)
      → IsBound p
      → I true s
      → Ends X (IsPrepared p s) (prepare ctx permitted p s)
  unfolding prepare assemble_context
  prepare-Ends p s (bound, own, unshown) i =
      let images = step_images ctx p.observation p.step_capture permitted in
      Ends-bind X _ (IsPrepared p s)
        (lift (with_images p.observation p.step_capture.capture images) s) _
        (lift-Ends ctx permitted X I kept _ true s i)
        (λ (o, c) s1 (w, same, i1).
          let (shown, status, step, obs) =
            with_images-IsWritten p.observation p.step_capture.capture (o, c) images unshown w in
          Ends-bind X (λ _ s'. s' ≡ s1) (IsPrepared p s)
            (of_boundary p.step_capture
              (enforce_parity_boundary ctx.strip o
                (assemble_context ctx.texts o ctx.guidance ctx.model p.step_index images)
                (run_forbidden_literals ctx))
              s1)
            _ (of_boundary-Ends p.step_capture _ s1 unshown i1)
            (λ _ s2 e. (
              (
                shown,
                λ h.
                    let (a, b, d) = shown_images ctx permitted p.observation p.step_capture h in
                    (a, status ∙ b, step ∙ own),
              ),
              obs ∙ bound,
              refl,
              ap (called (wrote_capture c p.step_capture.blob)) (e ∙ same),
            )))
