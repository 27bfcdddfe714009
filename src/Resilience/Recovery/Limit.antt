-- ===== src/Resilience/Recovery/Limit.antt =====
-- Failed attempts in a row lead to a failed run, after as many as the limit.
use civ_sim_taskify.Prelude.{
  ℕ, zero, suc, ◌+◌, ◌≤◌, ◌<◌, ◌≡◌, refl, sym, ap, ◌∙◌, subst, true, false, none, some, List, [],
  ◌∷◌, ltb, lt→ltb, ◌==◌, arith, tests,
}
use civ_sim_taskify.Errors.{Error, Result, ok, err, recovery_limit_reached}
use civ_sim_taskify.Models.Run.{Timestamp, resuming, failed, Run, IsValid, unrecoverable_failure}
use civ_sim_taskify.Models.Event.{RunEvent}
use civ_sim_taskify.Lifecycle.{transition, transition_event, updated}
use civ_sim_taskify.Lifecycle.Graph.{Edge, give_up}
use civ_sim_taskify.Lifecycle.Transition.{IsResolved, transition-eq-ok_iff}
use civ_sim_taskify.Resilience.Recovery.{
  SavePoint, World, RecoveryResult, is_absent, is_not_found, recover,
  ensure_interrupted_and_resuming, update_ended, fail_run, failed_with, on_recovery_attempt_failed,
}

-- Recovery is tried again, as long as it fails, on the run that the store holds.
module _ (turn : ℕ) (at : Timestamp) (limit : ℕ) (load : SavePoint → Result (Unit {0}))
    (save : SavePoint) where
  unfoldable pub retry : ℕ → World → List (Result RecoveryResult) × World
  retry zero w = ([], w)
  retry (suc n) w =
      let x = recover turn at limit load w.run save w in
      let rest = retry n x.1 in (x.0 ∷ rest.0, rest.1)

  -- The save is the turn's and on record, and the load fails with `cause`, which is no missing file.
  module _ (cause : Error) (own : (save.turn_number == turn) ≡ true)
      (present : is_absent save ≡ false) (other : is_not_found cause ≡ false)
      (fails : load save ≡ err cause) where
    counted :
        (w : World)
        → w.run.lifecycle_state ≡ resuming
        → recover turn at limit load w.run save w
          ≡ on_recovery_attempt_failed turn at limit w.run cause w
    unfolding recover ensure_interrupted_and_resuming
    counted w s = ground (arith, own, s, present, other, fails)

    below :
        (w : World)
        → w.run.lifecycle_state ≡ resuming
        → suc w.consecutive_failures < limit
        → recover turn at limit load w.run save w
          ≡ (err cause, record w { consecutive_failures = suc w.consecutive_failures })
    below w s small = let b = lt→ltb (suc w.consecutive_failures) limit small in counted w s ∙ rw b

    -- The last attempt writes that the limit is reached and fails the run.
    record HasFailed (x : Result RecoveryResult × World) : Type 0 where
      raised : x.0 ≡ err recovery_limit_reached
      state : x.1.run.lifecycle_state ≡ failed
      resolution : x.1.run.stop_resolution ≡ some unrecoverable_failure

    failing :
        (run : Run) (v : World) (t : Result (Run × RunEvent))
        → t
          ≡ ok (
            updated run failed at (some unrecoverable_failure),
            transition_event run failed at none none,
          )
        → HasFailed (failed_with turn at recovery_limit_reached t v)
    unfolding updated update_ended
    failing run v t e =
        subst (λ t'. HasFailed (failed_with turn at recovery_limit_reached t' v)) (sym e)
          (record { raised = refl; state = refl; resolution = refl })

    at_limit :
        (w : World)
        → IsValid w.run
        → w.run.lifecycle_state ≡ resuming
        → limit ≤ suc w.consecutive_failures
        → HasFailed (recover turn at limit load w.run save w)
    at_limit w v s reached =
        let b : ltb (suc w.consecutive_failures) limit ≡ false = grind (arith, tests, reached) in
        let edge : Edge w.run.lifecycle_state failed = subst (λ z. Edge z failed) (sym s) give_up in
        let stop : IsResolved failed (some unrecoverable_failure) = record {
          only_terminal = λ _. refl;
          finished_needs = λ p. refl;
        } in
        let moves =
          (transition-eq-ok_iff w.run failed at none none (some unrecoverable_failure) v).1
            (edge, stop) in
        subst HasFailed (sym (counted w s)) (
          let q : HasFailed (fail_run turn at w.run recovery_limit_reached _) =
            failing w.run _ (transition w.run failed at none none (some unrecoverable_failure))
              moves in
          rw b q)

    -- What the attempts raise when the last of them reaches the limit.
    abbrev pub raised_each : ℕ → List (Result RecoveryResult)
    raised_each zero = err recovery_limit_reached ∷ []
    raised_each (suc k) = err cause ∷ raised_each k

    -- From a valid run that an earlier call left resuming, with a save of the turn that is not
    -- recorded absent and a loader that fails each time with the same error other than a missing
    -- file: as long as the failures in a row stay below the limit an attempt raises that error,
    -- and the attempt that reaches the limit raises `RecoveryLimitReached` and leaves the run
    -- failed, as an unrecoverable failure.
    pub retry_fails :
        (k : ℕ) (w : World)
        → IsValid w.run
        → w.run.lifecycle_state ≡ resuming
        → suc (k + w.consecutive_failures) ≡ limit
        → ((retry (suc k) w).0 ≡ raised_each k)
          × ((retry (suc k) w).1.run.lifecycle_state ≡ failed)
          × ((retry (suc k) w).1.run.stop_resolution ≡ some unrecoverable_failure)
    unfolding retry
    retry_fails zero w v s e =
        let f = at_limit w v s (omega (arith, e)) in
        (ap (λ r. r ∷ []) f.raised, f.state, f.resolution)
    retry_fails (suc k) w v s e =
        let b = below w s (omega (arith, e)) in
        let (raises, state, resolution) =
          retry_fails k (record w { consecutive_failures = suc w.consecutive_failures }) v s
            (omega (arith, e)) in
        rw b (ap (λ rs. err cause ∷ rs) raises, state, resolution)
