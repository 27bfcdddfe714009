-- ===== src/Resilience/Recovery/Outcomes.antt =====
-- What one recovery attempt leads to.
use civ_sim_taskify.Prelude.{
  ℕ, suc, ◌≡◌, refl, sym, ap, ◌∙◌, subst, Bool-cases, if_both, ==_iff, inl, inr, false, Option,
  none, some, List, ltb, ◌==◌, arith,
}
use civ_sim_taskify.Errors.{
  Error, Result, ok, err, save_addressing_error, recovery_limit_reached, value_error, ◌>>=◌,
  >>=-eq-ok,
}
use civ_sim_taskify.Models.Run.{
  Timestamp, LifecycleState, playing, interrupted, resuming, Run, IsValid, validate, StopResolution,
}
use civ_sim_taskify.Models.Event.{RunEvent}
use civ_sim_taskify.Lifecycle.{transition, updated}
use civ_sim_taskify.Lifecycle.Transition.{transition-IsValid}
use civ_sim_taskify.Resilience.Recovery.{
  SavePoint, World, RecoveryResult, is_absent, recover, ensure_interrupted_and_resuming,
  write_run_event, update_state, on_attempt, from_resuming, failed_with, fail_on_missing_save,
  on_recovery_attempt_failed, is_not_found,
}

-- The run can be recovered: its turn was interrupted, now or by an earlier call.
pub data IsRecoverable : LifecycleState → Type 0 where
  in_play : IsRecoverable playing
  stopped : IsRecoverable interrupted
  retried : IsRecoverable resuming

-- A run that a transition returns is in the state that was asked for.
pub transition_state :
    (run : Run) (to : LifecycleState) (at : Timestamp) (turn step : Option ℕ)
    (stop : Option StopResolution) {r : Run} {e : RunEvent}
    → transition run to at turn step stop ≡ ok (r, e)
    → r.lifecycle_state ≡ to
unfolding transition validate updated
transition_state run to at turn step stop h = ground arith

module _ (turn : ℕ) (at : Timestamp) (limit : ℕ) where
  -- No failure is returned as a result.
  abbrev NoResult : Result RecoveryResult × World → Type 0
  NoResult (err e, v) = Unit
  NoResult (ok r, v) = ⊥

  failed_with-NoResult :
      (cause : Error) (t : Result (Run × RunEvent)) (w : World)
      → NoResult (failed_with turn at cause t w)
  failed_with-NoResult cause (err e) w = tt
  failed_with-NoResult cause (ok (r, e)) w = tt

  attempt_failed-NoResult :
      (run : Run) (cause : Error) (w : World)
      → NoResult (on_recovery_attempt_failed turn at limit run cause w)
  attempt_failed-NoResult run cause w =
      if_both NoResult (ltb (suc w.consecutive_failures) limit) (λ _. tt)
        (λ _. failed_with-NoResult recovery_limit_reached _ _)

  attempt_returns :
      (run : Run) (save : SavePoint) (before : List RunEvent) (t : Result (Run × RunEvent))
      (w : World) (r : RecoveryResult) (v : World)
      → on_attempt turn at limit run save before t w ≡ (ok r, v)
      → (back : Run) × (e : RunEvent) × (t ≡ ok (back, e))
        × (r.run ≡ back)
        × (r.resumed_from ≡ save)
        × (v.run.lifecycle_state ≡ back.lifecycle_state)
        × (v.consecutive_failures ≡ 0)
  unfolding update_state write_run_event
  attempt_returns run save before (ok (back, e)) w r v h =
      (back, e, refl, ground arith, ground arith, ground arith, ground arith)
  attempt_returns run save before (err e) w r v h = absurd (
      subst NoResult h (
        if_both NoResult (is_not_found e) (λ _. failed_with-NoResult save_addressing_error _ _)
          (λ _. attempt_failed-NoResult run e w)))

  module _ (load : SavePoint → Result (Unit {0})) (save : SavePoint) where
    -- What a recovery that returns has done.
    pub record HasResumed (r : RecoveryResult) (v : World) : Type 0 where
      pub loaded : load save ≡ ok tt
      pub of_turn : save.turn_number ≡ turn
      pub present : is_absent save ≡ false
      pub same_save : r.resumed_from ≡ save
      pub plays : r.run.lifecycle_state ≡ playing
      pub valid : IsValid r.run
      pub recorded : v.run.lifecycle_state ≡ playing
      pub reset : v.consecutive_failures ≡ 0

    resuming_returns :
        (x : Result (Run × List RunEvent) × World) (r : RecoveryResult) (v : World)
        → save.turn_number ≡ turn
        → from_resuming turn at limit load save x ≡ (ok r, v)
        → HasResumed r v
    resuming_returns (err e, u) r v same h = absurd (cc)
    resuming_returns (ok (run, before), u) r v same h = elim (Bool-cases (is_absent save)) [
      | inl absent ↦ absurd (
          let q : fail_on_missing_save turn at run u ≡ (ok r, v) = rw absent at h in
          subst NoResult q (failed_with-NoResult save_addressing_error _ _))
      | inr present ↦
          let q : on_attempt turn at limit run save before
                (load save >>= λ _. transition run playing at (some turn) none none) u
              ≡ (ok r, v) =
            rw present at h in
          let (back, e, t, a, b, c, d) = attempt_returns run save before _ u r v q in
          let (unit, l, m) =
            >>=-eq-ok (load save) (λ _. transition run playing at (some turn) none none) t in
          let p = transition_state run playing at (some turn) none none m in
          record {
            loaded = l;
            of_turn = same;
            present = present;
            same_save = b;
            plays = ap (λ (z : Run). z.lifecycle_state) a ∙ p;
            valid =
                subst IsValid (sym a) (transition-IsValid run playing at (some turn) none none m);
            recorded = c ∙ p;
            reset = d;
          }
    ]

    -- A recovery that returns has loaded the very save it was given, which belongs to the turn and
    -- is not recorded absent; the run plays again, in the result and in the store, what is returned
    -- is valid, and the count of failures starts anew.
    pub recover_resumes :
        (run : Run) (w : World) (r : RecoveryResult) (v : World)
        → recover turn at limit load run save w ≡ (ok r, v)
        → HasResumed r v
    unfolding recover
    recover_resumes run w r v h = elim (Bool-cases (save.turn_number == turn)) [
      | inl same ↦
          resuming_returns (ensure_interrupted_and_resuming turn at run w) r v
            ((==_iff save.turn_number turn).0 same) (rw same at h)
      | inr other ↦ absurd (let q : (err value_error, w) ≡ (ok r, v) = rw other at h in cc)
    ]
