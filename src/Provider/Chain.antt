-- ===== src/Provider/Chain.antt =====
-- civsim_harness/provider/chain.py: retry and fallback across the configured models for one
-- decision step. The provider is a parameter: what it answers, or the exception it raises, may
-- depend on how many calls came before. Delays count a fixed unit of time, with a whole multiplier.
pub mod Attempts
pub mod Sent
pub mod Exhausted
mod Tests
use Prim.Native.Nat.{min}
use civ_sim_taskify.Prelude.{
  ℕ, zero, suc, ◌+◌, ◌-◌, ◌*◌, ◌^◌, String, Bool, true, false, not, ◌||◌, Option, some, List, [],
  ◌∷◌, ◌++◌, length, ltb, ◌==◌, if◌then◌else◌,
}
use civ_sim_taskify.Errors.{
  Error, Result, ok, err, image_count_mismatch, provider_chain_exhausted, value_error,
}
use civ_sim_taskify.Models.Run.{Timestamp}
use civ_sim_taskify.Models.Event.{
  RunEventType, provider_failure, provider_retry, provider_fallback, model_chain_exhausted,
  RunEvent, no_detail,
}
use civ_sim_taskify.Models.Event
use civ_sim_taskify.Provider.Port.{
  ModelRef, DecisionRequest, DecisionResponse, CallOutcome, decision_returned, context_rejected,
}

pub record RetryPolicy : Type 0 where
  pub max_attempts_per_model : ℕ
  pub base_delay : ℕ
  pub max_delay : ℕ
  pub multiplier : ℕ
  pub jitter : ℕ

-- `RetryPolicy.__post_init__`; a natural number is never negative.
unfoldable pub check_policy : RetryPolicy → Result RetryPolicy
check_policy p =
    if ltb p.max_attempts_per_model 1 || ltb p.multiplier 1 then err value_error else ok p

-- `delay_for`: `rand` is the part of the jitter that the random number selects.
unfoldable pub delay_for : RetryPolicy → ℕ → ℕ → ℕ
delay_for p attempt rand = min (p.base_delay * p.multiplier ^ (attempt - 1)) p.max_delay + rand

-- A `ProviderChain` and the arguments of one `complete_step`: the k-th call of the provider, of
-- the random source and of the clock each get their number.
pub record Chain : Type 0 where
  pub complete : ℕ → DecisionRequest → Result DecisionResponse
  pub primary : ModelRef
  pub fallbacks : List ModelRef
  pub retry_policy : RetryPolicy
  pub rand : ℕ → ℕ
  pub clock : ℕ → Timestamp
  pub run_id : String
  pub turn_number : Option ℕ

-- What a step has done so far: the requests sent, the failures counted in
-- `total_prior_attempts`, the events written and the delays slept.
pub record Progress : Type 0 where
  pub sent : List DecisionRequest
  pub total_prior_attempts : ℕ
  pub events : List RunEvent
  pub slept : List ℕ

pub data Attempt : Type 0 where
  served : DecisionResponse → Attempt
  raised : Error → Attempt
  gave_up : Attempt

module _ (c : Chain) (request : DecisionRequest) where
  -- `_record_event`
  abbrev pub record_event : RunEventType → Progress → Progress
  record_event type p = record p {
    events =
        p.events
        ++ record {
          run_id = c.run_id;
          turn_number = c.turn_number;
          step_index = some request.step_index;
          event_type = type;
          occurred_at = c.clock (length p.events);
          detail = no_detail;
        }
          ∷ [];
  }

  -- `replace(request, model=model)`, sent to the provider.
  abbrev pub call_request : ModelRef → DecisionRequest
  call_request model = record request { model = model }

  abbrev pub sending : ModelRef → Progress → Progress
  sending model p = record p { sent = p.sent ++ call_request model ∷ [] }

  abbrev pub counting : Progress → Progress
  counting p =
      record_event provider_failure (record p { total_prior_attempts = suc p.total_prior_attempts })

  abbrev pub sleeping : ℕ → Progress → Progress
  sleeping attempt p =
      let q = record_event provider_retry p in
      record q {
        slept = q.slept ++ delay_for c.retry_policy attempt (c.rand (length p.slept)) ∷ [];
      }

  -- The branches on the outcome of one call; `rest` is the next round of the attempt loop.
  abbrev pub on_outcome :
      (Progress → Attempt × Progress)
      → ℕ
      → ℕ
      → DecisionResponse
      → CallOutcome
      → Progress
      → Attempt × Progress
  on_outcome rest position attempt r decision_returned p = (
    served (record r { retry_count = p.total_prior_attempts; fallback_occurred = ltb 0 position }),
    p,
  )
  on_outcome rest position attempt r context_rejected p =
      (gave_up, record_event Event.context_rejected (counting p))
  on_outcome rest position attempt r _ p =
      if ltb attempt c.retry_policy.max_attempts_per_model
      then rest (sleeping attempt (counting p))
      else rest (counting p)

  -- `_assert_image_count`, then the outcome.
  abbrev pub on_response :
      (Progress → Attempt × Progress)
      → ℕ
      → ℕ
      → Result DecisionResponse
      → Progress
      → Attempt × Progress
  on_response rest position attempt (err e) p = (raised e, p)
  on_response rest position attempt (ok r) p =
      if r.image_count == length request.images
      then on_outcome rest position attempt r r.outcome p
      else (raised image_count_mismatch, p)

  -- `for attempt in range(1, max_attempts_per_model + 1)`, with `left` rounds left.
  unfoldable pub try_model : ℕ → ℕ → ModelRef → ℕ → Progress → Attempt × Progress
  try_model position attempt model zero p = (gave_up, p)
  try_model position attempt model (suc left) p =
      on_response (try_model position (suc attempt) model left) position attempt
        (c.complete (length p.sent) (call_request model)) (sending model p)

  -- The event of a fallback is written unless the model was the last one.
  abbrev pub falling_back : List ModelRef → Progress → Progress
  falling_back [] p = p
  falling_back (m ∷ ms) p = record_event provider_fallback p

  abbrev pub after_model :
      List ModelRef
      → (Progress → Result DecisionResponse × Progress)
      → Attempt × Progress
      → Result DecisionResponse × Progress
  after_model others rest (served r, p) = (ok r, p)
  after_model others rest (raised e, p) = (err e, p)
  after_model others rest (gave_up, p) = rest (falling_back others p)

  unfoldable pub try_models : ℕ → List ModelRef → Progress → Result DecisionResponse × Progress
  try_models position [] p = (err provider_chain_exhausted, record_event model_chain_exhausted p)
  try_models position (m ∷ ms) p =
      after_model ms (try_models (suc position) ms)
        (try_model position 1 m c.retry_policy.max_attempts_per_model p)

  abbrev pub no_progress_yet : Progress
  no_progress_yet = record { sent = []; total_prior_attempts = 0; events = []; slept = [] }

  -- `models`
  abbrev pub models : List ModelRef
  models = c.primary ∷ c.fallbacks

  unfoldable pub complete_step : Result DecisionResponse × Progress
  complete_step = try_models 0 models no_progress_yet
