-- ===== src/Resilience/Recovery/Retry.antt =====
-- A failed attempt below the limit leaves the run where the next attempt can take it up.
use civ_sim_taskify.Prelude.{
  ℕ, suc, ◌<◌, ◌≡◌, refl, sym, ap, ◌∙◌, subst, true, false, List, lt→ltb, ◌==◌, ==_iff, arith,
}
use civ_sim_taskify.Errors.{Error, Result, ok, err}
use civ_sim_taskify.Models.Run.{Timestamp, resuming, Run, IsValid}
use civ_sim_taskify.Models.Event.{RunEvent}
use civ_sim_taskify.Resilience.Recovery.{
  SavePoint, World, is_absent, is_not_found, recover, ensure_interrupted_and_resuming,
  from_resuming, on_recovery_attempt_failed,
}
use civ_sim_taskify.Resilience.Recovery.Outcomes.{IsRecoverable}
use civ_sim_taskify.Resilience.Recovery.Missing.{reach}

module _ (turn : ℕ) (at : Timestamp) (limit : ℕ) (load : SavePoint → Result (Unit {0}))
    (save : SavePoint) (cause : Error) where
  attempt_fails :
      (run : Run) (before : List RunEvent) (u : World)
      → is_absent save ≡ false
      → is_not_found cause ≡ false
      → load save ≡ err cause
      → from_resuming turn at limit load save (ok (run, before), u)
        ≡ on_recovery_attempt_failed turn at limit run cause u
  attempt_fails run before u present other fails = ground (arith, present, other, fails)

  below_limit :
      (run : Run) (u : World)
      → suc u.consecutive_failures < limit
      → on_recovery_attempt_failed turn at limit run cause u
        ≡ (err cause, record u { consecutive_failures = suc u.consecutive_failures })
  below_limit run u small = rw (lt→ltb (suc u.consecutive_failures) limit small) refl

  -- From a valid run that plays, was interrupted or was left resuming, and that is the one in the
  -- store: if the save is of the turn and not recorded absent, its load fails with an error other
  -- than a missing file, and this failure stays below the limit, that error is raised, the run in
  -- the store is resuming and valid, and the failures in a row are one more.
  pub recover_fails :
      (run : Run) (w : World)
      → IsValid run
      → IsRecoverable run.lifecycle_state
      → w.run ≡ run
      → save.turn_number ≡ turn
      → is_absent save ≡ false
      → is_not_found cause ≡ false
      → load save ≡ err cause
      → suc w.consecutive_failures < limit
      → ((recover turn at limit load run save w).0 ≡ err cause)
        × ((recover turn at limit load run save w).1.run.lifecycle_state ≡ resuming)
        × IsValid (recover turn at limit load run save w).1.run
        × ((recover turn at limit load run save w).1.consecutive_failures
            ≡ suc w.consecutive_failures)
  unfolding recover ensure_interrupted_and_resuming
  recover_fails run w v c stored own present other fails small =
      let ready = reach turn at run.lifecycle_state run w refl v c in
      let same : (save.turn_number == turn) ≡ true = (==_iff save.turn_number turn).1 own in
      let u = ready.after in
      let low : suc u.consecutive_failures < limit =
        subst (λ n. suc n < limit) (sym ready.same_count) small in
      let (state, valid) = ready.stored stored in
      let failed_as : from_resuming turn at limit load save (ok (ready.ready, ready.before), u)
          ≡ (err cause, record u { consecutive_failures = suc u.consecutive_failures }) =
        attempt_fails ready.ready ready.before u present other fails
        ∙ below_limit ready.ready u low in
      rw same (rw ready.result (rw failed_as (refl, state, valid, ap suc ready.same_count)))
