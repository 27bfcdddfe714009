-- ===== src/Run/DecisionLoop/Rule/Rounds.antt =====
-- One round of the loop, however it ends.
use civ_sim_taskify.Prelude.{
  ℕ, ◌+◌, ◌≡◌, refl, sym, ap, subst, ◌∙◌, Bool, true, false, not, ◌&&◌, [], ◌∷◌, ◌++◌, Bool-cases,
  inl, inr,
}
use civ_sim_taskify.Errors.{ok, raise_if, validation_error, >>-eq-ok, ok-path}
use civ_sim_taskify.Models.Run.{Timestamp, is_some, is_none}
use civ_sim_taskify.Models.Turn.{Observation, changed_state, ended_by_agent, ended_on_no_progress}
use civ_sim_taskify.Provider.Port.{RawDecision}
use civ_sim_taskify.Provider.Accounting.{ModelCall}
use civ_sim_taskify.NoProgress.{tripped}
use civ_sim_taskify.Act.Dispatch.{ActionExecution, authorized}
use civ_sim_taskify.Act.Camera.{dispatch_decision}
use civ_sim_taskify.Act.Registry.{ParityDeclaration}
use civ_sim_taskify.Act.Verify.{verify_execution}
use civ_sim_taskify.Agent.Decisions.{
  DecisionTrigger, Decision, is_response, validate_decision, build_decision,
}
use civ_sim_taskify.Run.Actions.{Ends, Ends-bind}
use civ_sim_taskify.Run.LoopState.{
  Live, DecisionLoopContext, DecisionStepBundle, Failure, mid_turn_observation_failure, lift,
}
use civ_sim_taskify.Run.FreshRead.{FreshObservation, resolve_trigger}
use civ_sim_taskify.Run.Step.{
  Position, Round, ended, carried_on, CarriedOut, of_trigger, prepare, ask, carry_out, named, leave,
  bundle_of, with_step, conclude, round, target_of,
}
use civ_sim_taskify.Run.Attempt.{after, IsStep, Attempt, by_agent, by_backstop}
use civ_sim_taskify.Run.DecisionLoop.Rule.{IsKept}
use civ_sim_taskify.Run.DecisionLoop.Rule.Reads.{IsFresh, lift-Ends}
use civ_sim_taskify.Run.DecisionLoop.Rule.Parts.{
  IsBound, named-same, of_trigger-Ends, IsPrepared, prepare-Ends,
}
use civ_sim_taskify.Run.DecisionLoop.Rule.Asked.{IsReply, ask-Ends, IsNext, carry_out-Ends}

validate_decision-same : (d e : Decision) → validate_decision d ≡ ok e → e ≡ d
unfolding validate_decision
validate_decision-same d e h =
    let (_, a) =
      >>-eq-ok (raise_if (is_response d.trigger && is_none d.prompt_type) validation_error) _ h in
    let (_, b) =
      >>-eq-ok (raise_if (not (is_response d.trigger) && is_some d.prompt_type) validation_error) _
        a in
    sym (ok-path b)

built_decision :
    (raw : RawDecision) (id step call : ℕ) (trigger : DecisionTrigger) (x : ActionExecution)
    (d : Decision)
    → build_decision raw id step call trigger x ≡ ok d
    → (d.decision_step_id ≡ step)
      × (d.is_end_turn ≡ raw.is_end_turn)
      × (d.parameters ≡ raw.parameters)
      × (d.action_declaration_id ≡ raw.action_declaration_id)
      × (d.execution ≡ x)
      × (d.model_call_id ≡ call)
unfolding build_decision
built_decision raw id step call trigger x d h =
    let e = validate_decision-same _ d h in
    (
      ap (λ z. z.decision_step_id) e,
      ap (λ z. z.is_end_turn) e,
      ap (λ z. z.parameters) e,
      ap (λ z. z.action_declaration_id) e,
      ap (λ z. z.execution) e,
      ap (λ z. z.model_call_id) e,
    )

module _ (ctx : DecisionLoopContext) (permitted : Bool) (X : Failure → Live → Type 0)
    (I : Bool → Live → Type 0) (kept : IsKept ctx permitted X I) where
  -- A round adds one step, with which the attempt ends or goes on.
  abbrev pub IsRound : Position → Round → Live → Type 0
  IsRound p (ended r) s =
      (b : DecisionStepBundle) × (r.steps ≡ p.steps ++ (b ∷ []))
      × Attempt ctx p.tracker p.step_index (b ∷ []) r.outcome r.final_no_progress_streak
      × I true s
  IsRound p (carried_on q) s =
      (b : DecisionStepBundle) × (q.steps ≡ p.steps ++ (b ∷ []))
      × IsStep ctx p.tracker p.step_index b
      × (b.decision.is_end_turn ≡ false)
      × (tripped (after p.tracker b) ≡ false)
      × (q.tracker ≡ after p.tracker b)
      × (q.step_index ≡ p.step_index + 1)
      × IsBound q
      × I true s

  leave-Ends :
      (p q : Position) (b : DecisionStepBundle) (flag : Bool) (at : Timestamp)
      (fresh : FreshObservation) (s : Live)
      → IsStep ctx p.tracker p.step_index b
      → q.tracker ≡ after p.tracker b
      → q.steps ≡ p.steps ++ (b ∷ [])
      → q.step_index ≡ p.step_index
      → b.decision.is_end_turn ≡ flag
      → IsFresh (p.step_index + 1) fresh
      → I true s
      → Ends X (IsRound p) (leave ctx q flag at fresh s)
  leave-Ends p q b true at fresh s step t steps index flag (bound, own, unshown) i = (
    b,
    steps,
    subst (λ n. Attempt ctx p.tracker p.step_index (b ∷ []) ended_by_agent n)
        (ap (λ z. z.streak) (sym t)) (by_agent step flag),
    kept.writes true s fresh.step_capture.capture fresh.step_capture.blob unshown i,
  )
  leave-Ends p q b false at fresh s step t steps index flag (bound, own, unshown) i =
      elim (Bool-cases (tripped q.tracker)) [
        | inl e ↦ rw e (
          b,
          steps,
          subst (λ n. Attempt ctx p.tracker p.step_index (b ∷ []) ended_on_no_progress n)
              (ap (λ z. z.streak) (sym t)) (by_backstop step flag (ap tripped (sym t) ∙ e)),
          kept.writes true s fresh.step_capture.capture fresh.step_capture.blob unshown i,
        )
        | inr e ↦ rw e (
          b,
          steps,
          step,
          flag,
          ap tripped (sym t) ∙ e,
          t,
          ap (λ n. n + 1) index,
          (bound ∙ ap (λ n. n + 1) (sym index), own ∙ ap (λ n. n + 1) (sym index), unshown),
          i,
        )
      ]

  conclude-Ends :
      (p : Position) (started : Timestamp) (trigger : DecisionTrigger) (o : Observation)
      (raw : RawDecision) (call : ModelCall) (out : CarriedOut) (s : Live)
      → o.decision_step_id ≡ p.step_index
      → call.decision_step_id ≡ p.step_index
      → IsFresh (p.step_index + 1) out.fresh
      → (out.progress ≡ changed_state
          → (d : ParityDeclaration) × (post : Observation) × (at : Timestamp) × (dispatch_decision
                ctx.python ctx.catalog raw.action_declaration_id o
                (target_of raw.parameters)
              ≡ ok (authorized d))
            × (post.decision_step_id ≡ p.step_index + 1)
            × (verify_execution ctx.python d o post (target_of raw.parameters) at
                ≡ ok (record { execution = out.execution; progress = out.progress })))
      → I true s
      → Ends X (IsRound p) (conclude ctx p started trigger o raw call out s)
  unfolding conclude
  conclude-Ends p started trigger o raw call out s bound own fresh checked i =
      Ends-bind X _ (IsRound p)
        (lift
          (build_decision raw p.step_index p.step_index call.model_call_id trigger out.execution) s)
        _ (lift-Ends ctx permitted X I kept _ true s i)
        (λ d s1 (e, _, i1).
          let (step, flag, ps, named_as, x, c) =
            built_decision raw _ p.step_index _ trigger _ d e in
          let b = bundle_of ctx p started (ctx.clock s.calls 2) o d call out in
          leave-Ends p (with_step ctx p out b) b raw.is_end_turn _ out.fresh s1
            (record {
              indexed = refl;
              of_turn = refl;
              of_call = c;
              observed = bound;
              decided = step;
              called = own;
              streak = refl;
              verified = λ q.
                  let (k, post, at, sent, next, c) = checked q in
                  record {
                    declaration = k;
                    dispatched = cc;
                    after_it = post;
                    read_next = next;
                    at = at;
                    confirmed = cc;
                  };
            })
            refl refl refl flag fresh i1)

  pub round-Ends :
      (p : Position) (s : Live)
      → ((b : Bool) (s' : Live)
          → I b s'
          → X (mid_turn_observation_failure p.steps p.events p.tracker.streak) s')
      → IsBound p
      → I true s
      → Ends X (IsRound p) (round ctx permitted p s)
  unfolding round
  round-Ends p s abandons bound i =
      Ends-bind X (λ _ s'. I true s') (IsRound p)
        (of_trigger p.step_capture
          (resolve_trigger ctx p.observation p.step_index (ctx.clock s.calls 4)) s)
        _ (of_trigger-Ends ctx permitted X I kept p.step_capture _ s bound.2 i)
        (λ (trigger, prompt) s1 i1.
          Ends-bind X (IsPrepared ctx permitted X I kept p s1) (IsRound p)
            (prepare ctx permitted p s1) _ (prepare-Ends ctx permitted X I kept p s1 bound i1)
            (λ w s2 (shown, obs, index, at).
              Ends-bind X (IsReply ctx permitted X I kept p.step_index w.request) (IsRound p)
                (ask ctx p.step_index w.request s2) _
                (subst
                  (λ z.
                    Ends X (IsReply ctx permitted X I kept p.step_index w.request)
                      (ask ctx p.step_index w.request z))
                  (sym at)
                  (ask-Ends ctx permitted X I kept p.step_index w.request w.capture _ s1 shown i1))
                (λ (answer, call) s3 (own, said, i3).
                  let (ps, id, flag) = named-same trigger prompt answer in
                  Ends-bind X
                    (IsNext ctx permitted X I kept p abandons w.observation
                      (named trigger prompt answer))
                    (IsRound p) (carry_out ctx p w.observation (named trigger prompt answer) s3) _
                    (carry_out-Ends ctx permitted X I kept p abandons w.observation
                      (named trigger prompt answer) answer w.request s3 said ps id i3)
                    (λ out s4 (fresh, checked, i4).
                      conclude-Ends p _ trigger w.observation (named trigger prompt answer) call out
                        s4 obs own fresh checked i4))))
