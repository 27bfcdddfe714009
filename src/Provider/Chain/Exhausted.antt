-- ===== src/Provider/Chain/Exhausted.antt =====
-- A step for which no model gives a decision.
use civ_sim_taskify.Prelude.{
  ℕ, zero, suc, ◌+◌, ◌*◌, ◌≡◌, ◌≢◌, refl, List, [], ◌∷◌, length, length-append, arith, ltb, ◌==◌,
  if_both, subst, ap, ◌∙◌,
}
use civ_sim_taskify.Errors.{Result, ok, err, provider_chain_exhausted}
use civ_sim_taskify.Provider.Port.{
  ModelRef, DecisionRequest, DecisionResponse, CallOutcome, decision_returned, context_rejected,
}
use civ_sim_taskify.Provider.Chain.{
  Chain, Progress, Attempt, served, raised, gave_up, on_outcome, on_response, try_model,
  after_model, try_models, complete_step, call_request, falling_back, counting, sleeping, sending,
  models, no_progress_yet,
}

-- What the provider answered is a failure that is retried, with the right image count.
abbrev pub FailsTransiently : DecisionRequest → Result DecisionResponse → Type 0
FailsTransiently q (err e) = ⊥
FailsTransiently q (ok r) =
    (r.image_count ≡ length q.images)
    × (r.outcome ≢ decision_returned)
    × (r.outcome ≢ context_rejected)

module _ (c : Chain) (request : DecisionRequest) where
  -- The attempts at one model end with no answer, and with `n` requests in all.
  GaveUp : ℕ → Attempt × Progress → Type 0
  GaveUp n (served r, p) = ⊥
  GaveUp n (raised e, p) = ⊥
  GaveUp n (gave_up, p) = length p.sent ≡ n

  outcome-GaveUp :
      (n position attempt : ℕ) (r : DecisionResponse) (rest : Progress → Attempt × Progress)
      (o : CallOutcome) (p : Progress)
      → o ≢ decision_returned
      → o ≢ context_rejected
      → ((q : Progress) → q.sent ≡ p.sent → GaveUp n (rest q))
      → GaveUp n (on_outcome c request rest position attempt r o p)
  unfolding GaveUp
  outcome-GaveUp n position attempt r rest decision_returned p d x more = absurd (d refl)
  outcome-GaveUp n position attempt r rest context_rejected p d x more = absurd (x refl)
  outcome-GaveUp n position attempt r rest o p d x more =
      if_both (GaveUp n) (ltb attempt c.retry_policy.max_attempts_per_model)
        (λ _. more (sleeping c request attempt (counting c request p)) refl)
        (λ _. more (counting c request p) refl)

  response-GaveUp :
      (n position attempt : ℕ) (rest : Progress → Attempt × Progress) (model : ModelRef)
      (o : Result DecisionResponse) (p : Progress)
      → FailsTransiently (call_request c request model) o
      → ((q : Progress) → q.sent ≡ p.sent → GaveUp n (rest q))
      → GaveUp n (on_response c request rest position attempt o p)
  response-GaveUp n position attempt rest model (err e) p f more = absurd f
  response-GaveUp n position attempt rest model (ok r) p f more =
      if_both (GaveUp n) (r.image_count == length request.images)
        (λ _. outcome-GaveUp n position attempt r rest r.outcome p f.1 f.2 more)
        (λ differ. absurd (ground (arith, f.0, differ)))

  module _
      (fails : (k : ℕ) (model : ModelRef)
        → FailsTransiently
            (call_request c request model)
            (c.complete k (call_request c request model))) where
    try_model-GaveUp :
        (position attempt : ℕ) (model : ModelRef) (left : ℕ) (p : Progress)
        → GaveUp (length p.sent + left) (try_model c request position attempt model left p)
    unfolding try_model GaveUp
    try_model-GaveUp position attempt model zero p = omega arith
    try_model-GaveUp position attempt model (suc left) p =
        response-GaveUp _ position attempt (try_model c request position (suc attempt) model left)
          model (c.complete (length p.sent) (call_request c request model))
          (sending c request model p) (fails (length p.sent) model)
          (λ q e.
            subst (λ n. GaveUp n (try_model c request position (suc attempt) model left q))
              (omega (arith, ap length e, length-append p.sent (call_request c request model ∷ [])))
              (try_model-GaveUp position (suc attempt) model left q))

    Ends : ℕ → Result DecisionResponse × Progress → Type 0
    Ends n (o, p) = (o ≡ err provider_chain_exhausted) × (length p.sent ≡ n)

    falling-sent : (ms : List ModelRef) (p : Progress) → (falling_back c request ms p).sent ≡ p.sent
    falling-sent [] p = refl
    falling-sent (m ∷ ms) p = refl

    after-Ends :
        (n m : ℕ) (ms : List ModelRef) (rest : Progress → Result DecisionResponse × Progress)
        (a : Attempt × Progress)
        → GaveUp n a
        → ((q : Progress) → length q.sent ≡ n → Ends m (rest q))
        → Ends m (after_model c request ms rest a)
    unfolding GaveUp
    after-Ends n m ms rest (served r, p) g more = absurd g
    after-Ends n m ms rest (raised e, p) g more = absurd g
    after-Ends n m ms rest (gave_up, p) g more =
        more (falling_back c request ms p) (ap length (falling-sent ms p) ∙ g)

    try_models-Ends :
        (position : ℕ) (ms : List ModelRef) (p : Progress)
        → Ends
            (length p.sent + length ms * c.retry_policy.max_attempts_per_model)
            (try_models c request position ms p)
    unfolding try_models Ends
    try_models-Ends position [] p = (refl, omega arith)
    try_models-Ends position (m ∷ ms) p =
        after-Ends _ _ ms (try_models c request (suc position) ms) _
          (try_model-GaveUp position 1 m c.retry_policy.max_attempts_per_model p)
          (λ q e.
            subst (λ n. Ends n (try_models c request (suc position) ms q)) (grind (arith, e))
              (try_models-Ends (suc position) ms q))

    -- If the provider answers every request of the step with a failure that is retried, the step
    -- ends in `ProviderChainExhausted`, after exactly `max_attempts_per_model` calls for each model
    -- of the chain: no answer is made up.
    pub complete_step_exhausted :
        ((complete_step c request).0 ≡ err provider_chain_exhausted)
        × (length (complete_step c request).1.sent
            ≡ length (c.primary ∷ c.fallbacks) * c.retry_policy.max_attempts_per_model)
    unfolding complete_step Ends
    complete_step_exhausted =
        let e = try_models-Ends 0 (models c request) (no_progress_yet c request) in
        (e.0, omega (arith, e.1))
