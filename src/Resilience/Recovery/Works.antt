-- ===== src/Resilience/Recovery/Works.antt =====
-- A recovery whose load works brings the run back to play.
use civ_sim_taskify.Prelude.{
  ℕ, ◌≡◌, refl, sym, ap, subst, true, false, none, some, List, ◌==◌, ==_iff,
}
use civ_sim_taskify.Errors.{Result, ok}
use civ_sim_taskify.Models.Run.{Timestamp, playing, resuming, Run, IsValid}
use civ_sim_taskify.Models.Event.{RunEvent}
use civ_sim_taskify.Lifecycle.Graph.{Edge, resumed}
use civ_sim_taskify.Lifecycle.Transition.{transition-eq-ok_iff, transition-IsValid}
use civ_sim_taskify.Resilience.Recovery.{
  SavePoint, World, RecoveryResult, is_absent, from_resuming, recover,
  ensure_interrupted_and_resuming,
}
use civ_sim_taskify.Resilience.Recovery.Outcomes.{IsRecoverable, transition_state}
use civ_sim_taskify.Resilience.Recovery.Missing.{reach}

-- A recovery that returns a valid run that plays.
abbrev pub Works : Result RecoveryResult × World → Type 0
Works x =
    (r : RecoveryResult) × (w : World) × (x ≡ (ok r, w))
    × (r.run.lifecycle_state ≡ playing)
    × IsValid r.run

module _ (turn : ℕ) (at : Timestamp) (limit : ℕ) (load : SavePoint → Result (Unit {0}))
    (save : SavePoint) where
  resumed-Works :
      (run : Run) (before : List RunEvent) (w : World)
      → run.lifecycle_state ≡ resuming
      → IsValid run
      → is_absent save ≡ false
      → load save ≡ ok tt
      → Works (from_resuming turn at limit load save (ok (run, before), w))
  resumed-Works run before w s v present loads =
      let edge : Edge run.lifecycle_state playing = subst (λ z. Edge z playing) (sym s) resumed in
      let t =
        (transition-eq-ok_iff run playing at (some turn) none none v).1
          (edge, record { only_terminal = λ h. cc; finished_needs = λ h. cc }) in
      rw present (
        rw loads (
          rw t (
            _,
            _,
            refl,
            transition_state run playing at (some turn) none none t,
            transition-IsValid run playing at (some turn) none none t,
          )))

  -- From a valid run that can be recovered, with a save of the turn that is not recorded absent and
  -- whose load works, a recovery returns a valid run that plays.
  pub recover-Works :
      (run : Run) (w : World)
      → IsValid run
      → IsRecoverable run.lifecycle_state
      → save.turn_number ≡ turn
      → is_absent save ≡ false
      → load save ≡ ok tt
      → Works (recover turn at limit load run save w)
  unfolding recover ensure_interrupted_and_resuming
  recover-Works run w v c own present loads =
      let ready = reach turn at run.lifecycle_state run w refl v c in
      let same : (save.turn_number == turn) ≡ true = (==_iff save.turn_number turn).1 own in
      subst Works (sym (rw same (ap (from_resuming turn at limit load save) ready.result)))
        (resumed-Works ready.ready ready.before ready.after ready.resumes ready.valid present loads)
