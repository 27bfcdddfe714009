-- ===== src/Provider/Accounting/Counts.antt =====
-- Which calls are accounted for, and that the chain's answers always are.
use civ_sim_taskify.Prelude.{ℕ, ◌≡◌, sym, ◌∙◌, ◌≢◌, [], ◌∷◌, length, arith, tests}
use civ_sim_taskify.Errors.{Result, ok, err, image_count_accounting_mismatch}
use civ_sim_taskify.Provider.Port.{DecisionRequest, DecisionResponse, decision_returned}
use civ_sim_taskify.Provider.Chain.{Chain, Progress, complete_step}
use civ_sim_taskify.Provider.Chain.Attempts.{failures, complete_step-IsServed}
use civ_sim_taskify.Provider.Accounting.{
  ModelCall, CallIdentity, accounted, build_model_call, record_model_call,
}

module _ (write : ModelCall → Result ℕ) (id : CallIdentity) (request : DecisionRequest) where
  -- A response that reports another number of images than the request carried is refused, and
  -- nothing is written.
  pub record_model_call_mismatch :
      (response : DecisionResponse)
      → response.image_count ≢ length request.images
      → record_model_call write id request response ≡ (err image_count_accounting_mismatch, [])
  unfolding record_model_call build_model_call
  record_model_call_mismatch response n = grind (arith, tests)

  recorded :
      (response : DecisionResponse)
      → response.image_count ≡ length request.images
      → (record_model_call write id request response).1 ≡ accounted id response ∷ []
  unfolding record_model_call build_model_call
  recorded response e = grind (arith, tests)

  -- An answer that the chain returns is always accounted for, by one record that has the number of
  -- failed calls on the timeline as its retry count, the outcome of a decision and the number of
  -- images that the request carried.
  pub record_model_call_of_chain :
      (c : Chain) (r : DecisionResponse) (p : Progress)
      → complete_step c request ≡ (ok r, p)
      → ((record_model_call write id request r).1 ≡ accounted id r ∷ [])
        × ((accounted id r).retry_count ≡ failures p.events)
        × ((accounted id r).outcome ≡ decision_returned)
        × ((accounted id r).image_count ≡ length request.images)
  record_model_call_of_chain c r p h =
      let s = complete_step-IsServed c request r p h in
      let (k, m, given, a, b, images, d, e, same, o) = s.answered in
      let count : r.image_count ≡ length request.images = same ∙ images in
      (recorded r count, s.retries_counted ∙ sym s.retries_logged, o, count)
