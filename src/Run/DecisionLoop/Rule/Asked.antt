-- ===== src/Run/DecisionLoop/Rule/Asked.antt =====
-- The call of the provider and what is done with its answer, however they end.
use civ_sim_taskify.Prelude.{
  ℕ, ◌+◌, ◌≡◌, refl, sym, ap, subst, ◌∙◌, Bool, true, false, Option, none, some, List, ◌∷◌,
  Bool-cases, inl, inr,
}
use civ_sim_taskify.Errors.{ok, provider_chain_exhausted, raise_if, >>-eq-ok, ok-path}
use civ_sim_taskify.Models.Turn.{Observation, ScreenCapture, changed_state}
use civ_sim_taskify.Models.Run.{Timestamp}
use civ_sim_taskify.Provider.Port.{RawDecision, DecisionRequest, DecisionResponse, CallOutcome}
use civ_sim_taskify.Provider.Accounting.{ModelCall, CallIdentity, build_model_call}
use civ_sim_taskify.Act.Registry.{ParityDeclaration}
use civ_sim_taskify.Act.Dispatch.{DispatchOutcome, authorized, refused, rejection_to_execution}
use civ_sim_taskify.Act.Camera.{dispatch_decision}
use civ_sim_taskify.Act.Verify.{verify_execution}
use civ_sim_taskify.Run.Actions.{Ends, Ends-bind, Ends-weaken}
use civ_sim_taskify.Run.LoopState.{
  Call, wrote_capture, asked, Live, DecisionLoopContext, Failure, mid_turn_observation_failure,
  lift,
}
use civ_sim_taskify.Run.FreshRead.{observe_or_wrap}
use civ_sim_taskify.Run.Step.{
  Position, CarriedOut, decided, is_decision, ask, perform, follow, carry_out, target_of,
}
use civ_sim_taskify.Run.DecisionLoop.Rule.{IsKept, IsShownIn, IsAnswer, called}
use civ_sim_taskify.Run.DecisionLoop.Rule.Reads.{IsFresh, lift-Ends, observe_or_wrap-Ends}
use civ_sim_taskify.Run.DecisionLoop.Rule.Parts.{IsAsked}

build_model_call-step :
    (id : CallIdentity) (request : DecisionRequest) (response : DecisionResponse) (call : ModelCall)
    → build_model_call id request response ≡ ok call
    → call.decision_step_id ≡ id.decision_step_id
unfolding build_model_call
build_model_call-step id request response call h =
    let (_, e) = >>-eq-ok (raise_if _ _) _ h in ap (λ z. z.decision_step_id) (sym (ok-path e))

module _ (ctx : DecisionLoopContext) (permitted : Bool) (X : Failure → Live → Type 0)
    (I : Bool → Live → Type 0) (kept : IsKept ctx permitted X I) where
  -- An answer to the request, of a call that is recorded for the step.
  abbrev pub IsReply : ℕ → DecisionRequest → RawDecision × ModelCall → Live → Type 0
  IsReply step request (raw, call) s =
      (call.decision_step_id ≡ step) × IsAsked ctx request raw s × I false s

  decided-Ends :
      (step : ℕ) (request : DecisionRequest) (before : List Call) (response : DecisionResponse)
      (call : ModelCall) (o : CallOutcome) (d : Option RawDecision) (s : Live)
      → s.calls ≡ asked request ∷ before
      → ctx.complete before request ≡ ok response
      → response.decision ≡ d
      → call.decision_step_id ≡ step
      → I false s
      → Ends X (IsReply step request) (decided ctx call o d s)
  decided-Ends step request before response call o none s sent answered e own i =
      kept.quiet provider_chain_exhausted false _ (kept.records false s call i)
  decided-Ends step request before response call o (some raw) s sent answered e own i =
      elim (Bool-cases (is_decision o)) [
        | inl h ↦ rw h (
          own,
          record {
            before = before;
            response = response;
            sent = sent;
            answered = answered;
            decided = e;
          },
          i,
        )
        | inr h ↦ rw h (kept.quiet provider_chain_exhausted false _ (kept.records false s call i))
      ]

  pub ask-Ends :
      (step : ℕ) (request : DecisionRequest) (c : ScreenCapture) (blob : Option (List ℕ)) (s : Live)
      → IsShownIn permitted c request
      → I true s
      → Ends X (IsReply step request) (ask ctx step request (called (wrote_capture c blob) s))
  unfolding ask
  ask-Ends step request c blob s shown i =
      let before = wrote_capture c blob ∷ s.calls in
      let i1 = kept.asks s c blob request shown i in
      Ends-bind X _ (IsReply step request)
        (lift (ctx.complete before request)
          (called (asked request) (called (wrote_capture c blob) s)))
        _ (lift-Ends ctx permitted X I kept (ctx.complete before request) false _ i1)
        (λ response s1 (answered, same, i2).
          Ends-bind X _ (IsReply step request) (lift (build_model_call _ request response) s1) _
            (lift-Ends ctx permitted X I kept (build_model_call _ request response) false s1 i2)
            (λ call s2 (built, same2, i3).
              decided-Ends step request before response call response.outcome response.decision s2
                (ap (λ z. z.calls) (same2 ∙ same)) answered refl
                (build_model_call-step _ request response call built) i3))

  module _ (p : Position)
      (abandons : (b : Bool) (s : Live)
        → I b s
        → X (mid_turn_observation_failure p.steps p.events p.tracker.streak) s) where
    -- The next observation is fresh, and only a verified execution counts as progress.
    abbrev pub IsNext : Observation → RawDecision → CarriedOut → Live → Type 0
    IsNext o raw out s =
        IsFresh (p.step_index + 1) out.fresh
        × (out.progress ≡ changed_state
            → (d : ParityDeclaration) × (post : Observation) × (at : Timestamp) × (dispatch_decision
                  ctx.python ctx.catalog raw.action_declaration_id o (target_of raw.parameters)
                ≡ ok (authorized d))
              × (post.decision_step_id ≡ p.step_index + 1)
              × (verify_execution ctx.python d o post (target_of raw.parameters) at
                  ≡ ok (record { execution = out.execution; progress = out.progress })))
        × I true s

    -- The action of an answer is performed, or its refusal recorded; then the game is read.
    follow-Ends :
        (o : Observation) (raw answer : RawDecision) (request : DecisionRequest)
        (outcome : DispatchOutcome) (s : Live)
        → IsAsked ctx request answer s
        → raw.parameters ≡ answer.parameters
        → dispatch_decision ctx.python ctx.catalog answer.action_declaration_id o
            (target_of answer.parameters)
          ≡ ok outcome
        → dispatch_decision ctx.python ctx.catalog raw.action_declaration_id o
            (target_of raw.parameters)
          ≡ ok outcome
        → I false s
        → Ends X (IsNext o raw) (follow ctx p o raw outcome s)
    follow-Ends o raw answer request (refused reason) s said same allowed own i =
        Ends-bind X _ (IsNext o raw)
          (lift (rejection_to_execution (refused reason) (ctx.clock s.calls 1)) s) _
          (lift-Ends ctx permitted X I kept _ false s i)
          (λ e s1 (_, _, i1).
            Ends-bind X (λ f s'. IsFresh (p.step_index + 1) f × I true s') (IsNext o raw)
              (observe_or_wrap ctx (p.step_index + 1) p.steps p.events p.tracker.streak s1) _
              (observe_or_wrap-Ends ctx permitted X I kept p.steps p.events p.tracker.streak
                abandons (p.step_index + 1) false s1 i1)
              (λ f s2 (fresh, i2). (fresh, (λ e. absurd (cc)), i2)))
    follow-Ends o raw answer request (authorized d) s said same allowed own i =
        let is_answer : IsAnswer ctx said.before request d.declaration_id raw.parameters = record {
          response = said.response;
          answer = answer;
          observation = o;
          declaration = d;
          answered = said.answered;
          decided = said.decided;
          parameters = same;
          allowed = allowed;
          declared = refl;
        } in
        let i1 =
          kept.acts s said.before request d.declaration_id raw.parameters said.sent is_answer i in
        Ends-bind X (λ _ s'. I false s') (IsNext o raw) (perform ctx d raw s) _
          (Ends-weaken X _ (λ _ s'. I false s') _ (lift-Ends ctx permitted X I kept _ false _ i1)
            (λ _ _ h. h.2))
          (λ _ s1 i2.
            Ends-bind X (λ f s'. IsFresh (p.step_index + 1) f × I true s') (IsNext o raw)
              (observe_or_wrap ctx (p.step_index + 1) p.steps p.events p.tracker.streak s1) _
              (observe_or_wrap-Ends ctx permitted X I kept p.steps p.events p.tracker.streak
                abandons (p.step_index + 1) false s1 i2)
              (λ f s2 (fresh, i3).
                Ends-bind X _ (IsNext o raw)
                  (lift
                    (verify_execution ctx.python d o f.observation (target_of raw.parameters)
                      (ctx.clock s2.calls 1))
                    s2)
                  _ (lift-Ends ctx permitted X I kept _ true s2 i3)
                  (λ v s3 (e, _, i4).
                    (fresh, (λ _. (d, f.observation, ctx.clock s2.calls 1, own, fresh.0, e)), i4))))

    pub carry_out-Ends :
        (o : Observation) (raw answer : RawDecision) (request : DecisionRequest) (s : Live)
        → IsAsked ctx request answer s
        → raw.parameters ≡ answer.parameters
        → raw.action_declaration_id ≡ answer.action_declaration_id
        → I false s
        → Ends X (IsNext o raw) (carry_out ctx p o raw s)
    unfolding carry_out
    carry_out-Ends o raw answer request s said same named i =
        Ends-bind X _ (IsNext o raw)
          (lift
            (dispatch_decision ctx.python ctx.catalog raw.action_declaration_id o
              (target_of raw.parameters))
            s)
          _ (lift-Ends ctx permitted X I kept _ false s i)
          (λ outcome s1 (e, at, i1).
            follow-Ends o raw answer request outcome s1
              (subst (IsAsked ctx request answer) (sym at) said) same (cc) e i1)
