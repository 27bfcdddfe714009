-- ===== src/Provider/Chain/Tests.antt =====
-- civsim_harness/provider/chain.py with two models: the first is rate limited, the second answers.
use civ_sim_taskify.Prelude.{
  ℕ, ◌≤◌, ◌≡◌, refl, false, true, none, some, [], ◌∷◌, length, All, ltb, if◌then◌else◌, arith,
}
use civ_sim_taskify.Errors.{ok, err, provider_chain_exhausted}
use civ_sim_taskify.Models.Value.{end}
use civ_sim_taskify.Provider.Port.{
  ModelRef, DecisionRequest, DecisionResponse, CallOutcome, decision_returned, rate_limited,
}
use civ_sim_taskify.Provider.Chain.{Chain, complete_step, try_models, try_model, delay_for}
use civ_sim_taskify.Provider.Chain.Attempts.{IsServed, complete_step-IsServed}
use civ_sim_taskify.Provider.Chain.Sent.{IsAsked, complete_step-asks}
use civ_sim_taskify.Provider.Chain.Exhausted.{complete_step_exhausted}

abbrev large : ModelRef
large = record { provider = "a"; model = "large" }

abbrev small : ModelRef
small = record { provider = "b"; model = "small" }

abbrev question : DecisionRequest
question = record {
  model = large;
  system = "play";
  observation = "{}";
  images = [];
  step_index = 1;
}

abbrev answer : CallOutcome → DecisionResponse
answer outcome = record {
  decision = some (record {
    action_declaration_id = "turn.end";
    reasoning = "done";
    parameters = end;
    is_end_turn = true;
    prompt_type = none;
  });
  model_served = small;
  latency_ms = 5;
  cost = record {
    input_tokens = none;
    output_tokens = none;
    total_tokens = none;
    amount_usd = none;
  };
  retry_count = 0;
  fallback_occurred = false;
  image_count = 0;
  outcome = outcome;
}

abbrev chain_of : (ℕ → CallOutcome) → Chain
chain_of outcome = record {
  complete = λ k q. ok (answer (outcome k));
  primary = large;
  fallbacks = small ∷ [];
  retry_policy = record {
    max_attempts_per_model = 2;
    base_delay = 1;
    max_delay = 30;
    multiplier = 2;
    jitter = 1;
  };
  rand = λ k. 0;
  clock = λ k. k;
  run_id = "run-1";
  turn_number = some 4;
}

abbrev recovering : Chain
recovering = chain_of (λ k. if ltb k 2 then rate_limited else decision_returned)

abbrev limited : Chain
limited = chain_of (λ k. rate_limited)

second_model_serves :
    (complete_step recovering question).0
    ≡ ok (record (answer decision_returned) { retry_count = 2; fallback_occurred = true })
unfolding complete_step try_models try_model delay_for
second_model_serves = refl

second_model_serves_all : complete_step recovering question ≡ (
  ok (record (answer decision_returned) { retry_count = 2; fallback_occurred = true }),
  (complete_step recovering question).1,
)
unfolding complete_step try_models try_model delay_for
second_model_serves_all = refl

one_delay : (complete_step recovering question).1.slept ≡ 1 ∷ []
unfolding complete_step try_models try_model delay_for
one_delay = refl

complete_step-IsServed_example :
    IsServed recovering question
      (record (answer decision_returned) { retry_count = 2; fallback_occurred = true })
      (complete_step recovering question).1
complete_step-IsServed_example =
    complete_step-IsServed recovering question
      (record (answer decision_returned) { retry_count = 2; fallback_occurred = true })
      (complete_step recovering question).1 second_model_serves_all

complete_step-asks_example :
    (length (complete_step recovering question).1.sent ≤ 4)
    × All (IsAsked recovering question) (complete_step recovering question).1.sent
complete_step-asks_example = complete_step-asks recovering question

complete_step_exhausted_example :
    ((complete_step limited question).0 ≡ err provider_chain_exhausted)
    × (length (complete_step limited question).1.sent ≡ 4)
complete_step_exhausted_example =
    complete_step_exhausted limited question
      (λ k model. (refl, λ p. ground arith, λ p. ground arith))
