-- ===== src/Provider/Chain/Sent.antt =====
-- The requests of a step, and what happens when no model gives a decision.
use civ_sim_taskify.Prelude.{
  ℕ, zero, suc, ◌+◌, ◌*◌, ◌≤◌, ◌≡◌, refl, inl, inr, ◌⊎◌, List, [], ◌∷◌, length, length-append, All,
  All-append, ap, sym, subst, arith, ltb, ◌==◌, if_both,
}
use civ_sim_taskify.Errors.{Result, ok, err}
use civ_sim_taskify.Provider.Port.{
  ModelRef, DecisionRequest, DecisionResponse, CallOutcome, decision_returned, context_rejected,
}
use civ_sim_taskify.Provider.Chain.{
  Chain, Progress, Attempt, served, raised, gave_up, on_outcome, on_response, try_model,
  after_model, try_models, complete_step, call_request, falling_back, counting, sleeping, sending,
  models, no_progress_yet,
}

abbrev pub Listed : ModelRef → List ModelRef → Type 0
Listed m [] = ⊥
Listed m (n ∷ ns) = (m ≡ n) ⊎ Listed m ns

module _ (c : Chain) (request : DecisionRequest) where
  -- A request of the step to one of the chain's models, equal to the step's own but for the model.
  pub record IsAsked (q : DecisionRequest) : Type 0 where
    pub same_but_model : q ≡ record request { model = q.model }
    pub configured : Listed q.model (c.primary ∷ c.fallbacks)

  -- At most `n` requests were added, all of them of the step.
  record Adds (n : ℕ) (p q : Progress) : Type 0 where
    few : length q.sent ≤ length p.sent + n
    asked : All IsAsked p.sent → All IsAsked q.sent

  Adds-weaken : {n : ℕ} (m : ℕ) {p q : Progress} → n ≤ m → Adds n p q → Adds m p q
  Adds-weaken m le a = record { few = omega (arith, a.few); asked = a.asked }

  Adds-trans : {m n : ℕ} {p q r : Progress} → Adds m p q → Adds n q r → Adds (m + n) p r
  Adds-trans a b = record { few = omega (arith, a.few, b.few); asked = λ h. b.asked (a.asked h) }

  Adds-none : (p q : Progress) → q.sent ≡ p.sent → Adds 0 p q
  Adds-none p q e = record {
    few = omega (arith, ap length e);
    asked = λ h. subst (All IsAsked) (sym e) h;
  }

  module _ (model : ModelRef) (known : Listed model (c.primary ∷ c.fallbacks)) where
    sending-Adds : (p : Progress) → Adds 1 p (sending c request model p)
    sending-Adds p = record {
      few = omega (arith, length-append p.sent (call_request c request model ∷ []));
      asked = λ h.
          All-append IsAsked p.sent (call_request c request model ∷ []) h
            (record { same_but_model = refl; configured = known }, tt);
    }

    outcome-Adds :
        (n position attempt : ℕ) (r : DecisionResponse) (rest : Progress → Attempt × Progress)
        (o : CallOutcome) (p : Progress)
        → ((q : Progress) → Adds n q (rest q).1)
        → Adds n p (on_outcome c request rest position attempt r o p).1
    outcome-Adds n position attempt r rest decision_returned p more =
        Adds-weaken n (omega arith) (Adds-none p p refl)
    outcome-Adds n position attempt r rest context_rejected p more =
        Adds-weaken n (omega arith) (Adds-none p _ refl)
    outcome-Adds n position attempt r rest o p more =
        if_both (λ (a : Attempt × Progress). Adds n p a.1)
          (ltb attempt c.retry_policy.max_attempts_per_model)
          (λ _. Adds-weaken n (omega arith) (
            Adds-trans (Adds-none p (sleeping c request attempt (counting c request p)) refl)
              (more (sleeping c request attempt (counting c request p)))))
          (λ _.
            Adds-weaken n (omega arith)
              (Adds-trans (Adds-none p (counting c request p) refl) (more (counting c request p))))

    response-Adds :
        (n position attempt : ℕ) (rest : Progress → Attempt × Progress)
        (o : Result DecisionResponse) (p : Progress)
        → ((q : Progress) → Adds n q (rest q).1)
        → Adds n p (on_response c request rest position attempt o p).1
    response-Adds n position attempt rest (err e) p more =
        Adds-weaken n (omega arith) (Adds-none p p refl)
    response-Adds n position attempt rest (ok r) p more =
        if_both (λ (a : Attempt × Progress). Adds n p a.1) (r.image_count == length request.images)
          (λ _. outcome-Adds n position attempt r rest r.outcome p more)
          (λ _. Adds-weaken n (omega arith) (Adds-none p p refl))

    try_model-Adds :
        (position attempt left : ℕ) (p : Progress)
        → Adds left p (try_model c request position attempt model left p).1
    unfolding try_model
    try_model-Adds position attempt zero p = Adds-none p p refl
    try_model-Adds position attempt (suc left) p = Adds-weaken (suc left) (omega arith) (
        Adds-trans (sending-Adds p) (
          response-Adds left position attempt
            (try_model c request position (suc attempt) model left) _ (sending c request model p)
            (try_model-Adds position (suc attempt) left)))

  falling-Adds : (ms : List ModelRef) (p : Progress) → Adds 0 p (falling_back c request ms p)
  falling-Adds [] p = Adds-none p p refl
  falling-Adds (m ∷ ms) p = Adds-none p _ refl

  after-Adds :
      (m n : ℕ) (ms : List ModelRef) (rest : Progress → Result DecisionResponse × Progress)
      (p : Progress) (a : Attempt × Progress)
      → ((q : Progress) → Adds n q (rest q).1)
      → Adds m p a.1
      → Adds (m + n) p (after_model c request ms rest a).1
  after-Adds m n ms rest p (served r, q) more h = Adds-weaken (m + n) (omega arith) h
  after-Adds m n ms rest p (raised e, q) more h = Adds-weaken (m + n) (omega arith) h
  after-Adds m n ms rest p (gave_up, q) more h =
      Adds-weaken (m + n) (omega arith)
        (Adds-trans h (Adds-trans (falling-Adds ms q) (more (falling_back c request ms q))))

  try_models-Adds :
      (position : ℕ) (ms : List ModelRef) (p : Progress)
      → All (λ m. Listed m (c.primary ∷ c.fallbacks)) ms
      → Adds
          (length ms * c.retry_policy.max_attempts_per_model)
          p
          (try_models c request position ms p).1
  unfolding try_models
  try_models-Adds position [] p known = Adds-weaken _ (omega arith) (Adds-none p _ refl)
  try_models-Adds position (m ∷ ms) p known = Adds-weaken _ (grind arith) (
      after-Adds _ _ ms (try_models c request (suc position) ms) p _
        (λ q. try_models-Adds (suc position) ms q known.1)
        (try_model-Adds m known.0 position 1 c.retry_policy.max_attempts_per_model p))

Listed-later :
    (n : ModelRef) (ns ms : List ModelRef)
    → All (λ m. Listed m ns) ms
    → All (λ m. Listed m (n ∷ ns)) ms
Listed-later n ns [] h = tt
Listed-later n ns (m ∷ ms) h = (inr h.0, Listed-later n ns ms h.1)

Listed-All : (ms : List ModelRef) → All (λ m. Listed m ms) ms
Listed-All [] = tt
Listed-All (m ∷ ms) = (inl refl, Listed-later m ms ms (Listed-All ms))

-- However the provider answers or raises, a step makes at most `max_attempts_per_model` calls for
-- each model of the chain, and every request sent is the step's own, with all of its images, to a
-- configured model.
pub complete_step-asks :
    (c : Chain) (request : DecisionRequest)
    → (length (complete_step c request).1.sent
        ≤ length (c.primary ∷ c.fallbacks) * c.retry_policy.max_attempts_per_model)
      × All (IsAsked c request) (complete_step c request).1.sent
unfolding complete_step
complete_step-asks c request =
    let a =
      try_models-Adds c request 0 (models c request) (no_progress_yet c request)
        (Listed-All (models c request)) in
    (omega (arith, a.few), a.asked tt)
