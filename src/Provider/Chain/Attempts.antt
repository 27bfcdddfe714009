-- ===== src/Provider/Chain/Attempts.antt =====
-- How many calls a step makes, and where a served answer comes from.
use civ_sim_taskify.Prelude.{
  ℕ, zero, suc, ◌+◌, ◌≡◌, refl, List, [], ◌∷◌, ◌++◌, length, length-append, arith, ltb, ◌==◌,
  ==_iff, if_both, subst,
}
use civ_sim_taskify.Errors.{Result, ok, err}
use civ_sim_taskify.Models.Event.{
  RunEventType, provider_failure, provider_retry, provider_fallback, RunEvent,
}
use civ_sim_taskify.Models.Event
use civ_sim_taskify.Provider.Port.{
  ModelRef, DecisionRequest, DecisionResponse, CallOutcome, decision_returned, context_rejected,
}
use civ_sim_taskify.Provider.Chain.{
  Chain, Progress, Attempt, served, raised, gave_up, on_outcome, on_response, try_model,
  after_model, try_models, complete_step, call_request, falling_back, counting, record_event,
  sleeping, sending, models, no_progress_yet,
}

-- How many `provider_failure` events a list of events holds.
abbrev pub failure : RunEventType → ℕ
failure provider_failure = 1
failure _ = 0

abbrev pub failures : List RunEvent → ℕ
failures [] = 0
failures (e ∷ es) = failure e.event_type + failures es

pub failures-append : (xs ys : List RunEvent) → failures (xs ++ ys) ≡ failures xs + failures ys
failures-append [] ys = omega arith
failures-append (x ∷ xs) ys = omega (arith, failures-append xs ys)

-- Between two calls every request sent has failed, and every failure is on the timeline.
pub record IsBalanced (p : Progress) : Type 0 where
  pub all_failed : length p.sent ≡ p.total_prior_attempts
  pub all_logged : failures p.events ≡ p.total_prior_attempts

-- One request is out.
record IsPending (p : Progress) : Type 0 where
  one_out : length p.sent ≡ suc p.total_prior_attempts
  logged : failures p.events ≡ p.total_prior_attempts

module _ (c : Chain) (request : DecisionRequest) where
  -- The answer of a step is one that the provider gave to a request of this step, as a decision and
  -- with every image accounted for; only its retry count is the chain's, the number of failed
  -- calls before it, each of them on the timeline.
  pub record IsServed (r : DecisionResponse) (p : Progress) : Type 0 where
    pub retries_counted : r.retry_count ≡ p.total_prior_attempts
    pub retries_logged : failures p.events ≡ p.total_prior_attempts
    pub one_more_sent : length p.sent ≡ suc p.total_prior_attempts
    pub answered :
        (k : ℕ) × (model : ModelRef) × (given : DecisionResponse) × (c.complete k
            (record request { model = model })
          ≡ ok given)
        × (given.outcome ≡ decision_returned)
        × (given.image_count ≡ length request.images)
        × (r.decision ≡ given.decision)
        × (r.model_served ≡ given.model_served)
        × (r.image_count ≡ given.image_count)
        × (r.outcome ≡ decision_returned)

  abbrev Post : Attempt × Progress → Type 0
  Post (served r, p) = IsServed r p
  Post (raised e, p) = Unit
  Post (gave_up, p) = IsBalanced p

  logging :
      (type : RunEventType) (p : Progress)
      → failures (record_event c request type p).events ≡ failures p.events + failure type
  logging type p = rw (failures-append p.events) (omega arith)

  counting-IsBalanced : (p : Progress) → IsPending p → IsBalanced (counting c request p)
  counting-IsBalanced p h = record {
    all_failed = h.one_out;
    all_logged = omega (
      arith,
      logging provider_failure (record p { total_prior_attempts = suc p.total_prior_attempts }),
      h.logged,
    );
  }

  recording-IsBalanced :
      (type : RunEventType) (p : Progress)
      → failure type ≡ 0
      → IsBalanced p
      → IsBalanced (record_event c request type p)
  recording-IsBalanced type p z h = record {
    all_failed = h.all_failed;
    all_logged = omega (arith, logging type p, h.all_logged, z);
  }

  sleeping-IsBalanced :
      (attempt : ℕ) (p : Progress) → IsBalanced p → IsBalanced (sleeping c request attempt p)
  sleeping-IsBalanced attempt p h =
      let b = recording-IsBalanced provider_retry p refl h in
      record { all_failed = b.all_failed; all_logged = b.all_logged }

  counted :
      (position attempt k : ℕ) (model : ModelRef) (r : DecisionResponse)
      (rest : Progress → Attempt × Progress) (o : CallOutcome) (p : Progress)
      → ((q : Progress) → IsBalanced q → Post (rest q))
      → c.complete k (call_request c request model) ≡ ok r
      → r.outcome ≡ o
      → r.image_count ≡ length request.images
      → IsPending p
      → Post (on_outcome c request rest position attempt r o p)
  counted position attempt k model r rest decision_returned p keep asked e images h = record {
    retries_counted = refl;
    retries_logged = h.logged;
    one_more_sent = h.one_out;
    answered = (k, model, r, asked, e, images, refl, refl, refl, e);
  }
  counted position attempt k model r rest context_rejected p keep asked e images h =
      recording-IsBalanced Event.context_rejected (counting c request p) refl
        (counting-IsBalanced p h)
  counted position attempt k model r rest o p keep asked e images h =
      if_both Post (ltb attempt c.retry_policy.max_attempts_per_model)
        (λ _.
          keep (sleeping c request attempt (counting c request p))
            (sleeping-IsBalanced attempt _ (counting-IsBalanced p h)))
        (λ _. keep (counting c request p) (counting-IsBalanced p h))

  responded :
      (position attempt k : ℕ) (model : ModelRef) (rest : Progress → Attempt × Progress)
      (o : Result DecisionResponse) (p : Progress)
      → ((q : Progress) → IsBalanced q → Post (rest q))
      → c.complete k (call_request c request model) ≡ o
      → IsPending p
      → Post (on_response c request rest position attempt o p)
  responded position attempt k model rest (err e) p keep asked h = tt
  responded position attempt k model rest (ok r) p keep asked h =
      if_both Post (r.image_count == length request.images)
        (λ same.
          counted position attempt k model r rest r.outcome p keep asked refl ((==_iff _ _).0 same)
            h)
        (λ _. tt)

  tried :
      (position attempt : ℕ) (model : ModelRef) (left : ℕ) (p : Progress)
      → IsBalanced p
      → Post (try_model c request position attempt model left p)
  unfolding try_model
  tried position attempt model zero p h = h
  tried position attempt model (suc left) p h =
      responded position attempt (length p.sent) model
        (try_model c request position (suc attempt) model left)
        (c.complete (length p.sent) (call_request c request model)) (sending c request model p)
        (tried position (suc attempt) model left) refl
        (record {
          one_out =
              omega (arith, length-append p.sent (call_request c request model ∷ []), h.all_failed);
          logged = h.all_logged;
        })

  abbrev Final : Result DecisionResponse × Progress → Type 0
  Final (ok r, p) = IsServed r p
  Final (err e, p) = Unit

  fallen :
      (ms : List ModelRef) (p : Progress) → IsBalanced p → IsBalanced (falling_back c request ms p)
  fallen [] p h = h
  fallen (m ∷ ms) p h = recording-IsBalanced provider_fallback p refl h

  passed_on :
      (ms : List ModelRef) (rest : Progress → Result DecisionResponse × Progress)
      (a : Attempt × Progress)
      → ((q : Progress) → IsBalanced q → Final (rest q))
      → Post a
      → Final (after_model c request ms rest a)
  passed_on ms rest (served r, p) keep h = h
  passed_on ms rest (raised e, p) keep h = tt
  passed_on ms rest (gave_up, p) keep h = keep (falling_back c request ms p) (fallen ms p h)

  all_tried :
      (position : ℕ) (ms : List ModelRef) (p : Progress)
      → IsBalanced p
      → Final (try_models c request position ms p)
  unfolding try_models
  all_tried position [] p h = tt
  all_tried position (m ∷ ms) p h =
      passed_on ms (try_models c request (suc position) ms)
        (try_model c request position 1 m c.retry_policy.max_attempts_per_model p)
        (all_tried (suc position) ms) (tried position 1 m c.retry_policy.max_attempts_per_model p h)

  -- A step that returns an answer returns one that the provider gave as a decision to a request of
  -- this step, with every image accounted for; its retry count is the number of failed calls
  -- before it, each of which is on the timeline, and one more call than those was made.
  pub complete_step-IsServed :
      (r : DecisionResponse) (p : Progress) → complete_step c request ≡ (ok r, p) → IsServed r p
  unfolding complete_step
  complete_step-IsServed r p e = subst Final e (
      all_tried 0 (models c request) (no_progress_yet c request)
        (record { all_failed = refl; all_logged = refl }))
