-- ===== src/Turn/Attempts/Plays.antt =====
-- The run that a turn returns is one that plays.
use civ_sim_taskify.Prelude.{ℕ, zero, suc, String, ◌≡◌, refl, some, ◌∷◌}
use civ_sim_taskify.Errors.{Result, ok, err}
use civ_sim_taskify.Models.Run.{Run, Timestamp, playing, IsValid}
use civ_sim_taskify.Resilience.Recovery.{
  SavePoint, World, RecoveryResult, write_run_event, event, recover,
  recover_from_observation_assembly_error,
}
use civ_sim_taskify.Resilience.Recovery.Outcomes.{recover_resumes}
use civ_sim_taskify.Run.Actions.{Outcome, failed, returned, and_then, Ends, Ends-bind, only_if}
use civ_sim_taskify.Run.LoopState.{
  mid_turn_observation_failure, unknown_screen_encountered, out_of_fuel,
}
use civ_sim_taskify.Run.LoopState
use civ_sim_taskify.Run.Actions
use civ_sim_taskify.Models.Event.{observation_assembly_failed}
use civ_sim_taskify.Turn.State.{
  recovering, Harness, TurnCycleDependencies, TurnFailure, Do, lift, write_events,
}
use civ_sim_taskify.Turn.Quicksave.{take_quicksave}
use civ_sim_taskify.Turn.Attempts.{
  Played, by_itself, cancelled, Finished, is_nonempty, build_record, abandoned_record,
  run_decision_loop_watched, persist_abandoned_attempt, of_recovery, recover_now,
  recover_from_error_now, still_alive, on_played, attempts,
}
use civ_sim_taskify.Turn.Cycle.{
  final_record, detect_between_turns, persist_and_end, seal, refreshed, run_turn_cycle,
}

abbrev pub Plays : Run → Type 0
Plays run = (run.lifecycle_state ≡ playing) × IsValid run

abbrev pub Any : TurnFailure → Harness → Type 0
Any f h = Unit

-- Nothing is said of a result.
anything : {A : Type 0} (r : Outcome TurnFailure A × Harness) → Ends Any (λ _ _. Unit {0}) r
anything (failed f, h) = tt
anything (returned a, h) = tt

module _ (deps : TurnCycleDependencies) (save : SavePoint) where
  recovered_Plays :
      (h : Harness) (x : Result RecoveryResult × World)
      → ((r : RecoveryResult) (w : World) → x ≡ (ok r, w) → Plays r.run)
      → Ends Any (λ back _. Plays back) (of_recovery deps x h)
  recovered_Plays h (err e, w) k = tt
  recovered_Plays h (ok r, w) k = k r w refl

  pub recover_now-Plays :
      (run : Run) (h : Harness) → Ends Any (λ back _. Plays back) (recover_now deps run save h)
  unfolding recover_now
  recover_now-Plays run h =
      recovered_Plays (record h { deeds = recovering save ∷ h.deeds })
        (recover deps.turn_number (deps.clock h.deeds 3) deps.recovery_limit (deps.load h.deeds) run
          save h.store)
        (λ r w e.
          let q =
            recover_resumes deps.turn_number (deps.clock h.deeds 3) deps.recovery_limit
              (deps.load h.deeds) save run h.store r w e in
          (q.plays, q.valid))

  recover_from_error_now-Plays :
      (run : Run) (h : Harness)
      → Ends Any (λ back _. Plays back) (recover_from_error_now deps run save h)
  unfolding recover_from_error_now recover_from_observation_assembly_error
  recover_from_error_now-Plays run h =
      let w0 =
        write_run_event
          (event run.run_id (some deps.turn_number) (deps.clock h.deeds 2)
            observation_assembly_failed)
          h.store in
      recovered_Plays (record h { deeds = recovering save ∷ h.deeds })
        (recover deps.turn_number (deps.clock h.deeds 3) deps.recovery_limit (deps.load h.deeds) run
          save w0)
        (λ r w e.
          let q =
            recover_resumes deps.turn_number (deps.clock h.deeds 3) deps.recovery_limit
              (deps.load h.deeds) save run w0 r w e in
          (q.plays, q.valid))

  abbrev Finishes : Outcome TurnFailure Finished × Harness → Type 0
  Finishes = Ends Any (λ f _. Plays f.run)

  module _ (next : ℕ → Run → Do Finished)
      (goes : (i : ℕ) (run : Run) (s : Harness) → Plays run → Finishes (next i run s)) where
    recovered_Finishes :
        (i : ℕ) (m : Outcome TurnFailure Run × Harness)
        → Ends Any (λ back _. Plays back) m
        → Finishes (and_then m (next (suc i)))
    recovered_Finishes i m p =
        Ends-bind Any (λ back _. Plays back) (λ f _. Plays f.run) m (next (suc i)) p
          (λ back s q. goes (suc i) back s q)

    after_persist :
        (i : ℕ) (run : Run) (m : Outcome TurnFailure (Unit {0}) × Harness)
        → Finishes
            (and_then m (λ _. Actions.◌>>=◌ (recover_from_error_now deps run save) (next (suc i))))
    after_persist i run m =
        Ends-bind Any (λ _ _. Unit {0}) (λ f _. Plays f.run) m _ (anything m)
          (λ _ s _. recovered_Finishes i _ (recover_from_error_now-Plays run s))

    on_played-Finishes :
        (i : ℕ) (run : Run) (id : String) (started : Timestamp) (p : Played) (h : Harness)
        → Plays run
        → Finishes (on_played deps save next i run id started p h)
    on_played-Finishes i run id started (by_itself (returned r)) h q = q
    on_played-Finishes i run id started (cancelled fault) h q =
        Ends-bind Any (λ back _. Plays back) (λ f _. Plays f.run) (recover_now deps run save h) _
          (recover_now-Plays run h)
          (λ back s p.
            Ends-bind Any (λ _ _. Unit {0}) (λ f _. Plays f.run) (still_alive deps deps.detection s)
              _ (anything (still_alive deps deps.detection s)) (λ _ v _. goes (suc i) back v p))
    on_played-Finishes i run id started
          (by_itself (failed (mid_turn_observation_failure steps events k))) h q =
        after_persist i run (
          only_if (is_nonempty steps)
            (persist_abandoned_attempt deps
              (abandoned_record deps id i save steps k started (deps.clock h.deeds 4)) steps events)
            h)
    on_played-Finishes i run id started (by_itself (failed (LoopState.raised e))) h q = tt
    on_played-Finishes i run id started (by_itself (failed (unknown_screen_encountered e))) h q = tt
    on_played-Finishes i run id started (by_itself (failed (out_of_fuel steps))) h q = tt

  attempts-Finishes :
      (fuel i : ℕ) (run : Run) (h : Harness)
      → Plays run
      → Finishes (attempts deps save fuel i run h)
  unfolding attempts
  attempts-Finishes zero i run h q = tt
  attempts-Finishes (suc fuel) i run h q =
      let id = deps.new_cycle_id h.deeds in
      let m = run_decision_loop_watched deps (deps.build_loop_context h.deeds id) id h in
      Ends-bind Any (λ _ _. Unit {0}) (λ f _. Plays f.run) m _ (anything m)
        (λ p s _.
          on_played-Finishes (attempts deps save fuel) (attempts-Finishes fuel) i run id
            (deps.clock h.deeds 5) p s q)

  ended_Plays :
      (f : Finished) (m : Outcome TurnFailure String × Harness)
      → Plays f.run
      → Ends Any (λ o _. Plays o.run) (and_then m (refreshed deps f))
  ended_Plays f (failed e, h) q = tt
  ended_Plays f (returned id, h) q = q

  persist_and_end-Plays :
      (f : Finished) (h : Harness)
      → Plays f.run
      → Ends Any (λ o _. Plays o.run) (persist_and_end deps save f h)
  unfolding persist_and_end
  persist_and_end-Plays f h q =
      let tc = final_record deps save f h.deeds in
      let made = lift (build_record tc f.result.steps) h in
      Ends-bind Any (λ _ _. Unit {0}) (λ o _. Plays o.run) made _ (anything made)
        (λ _ s _.
          let wrote = write_events f.result.events s in
          Ends-bind Any (λ _ _. Unit {0}) (λ o _. Plays o.run) wrote _ (anything wrote)
            (λ _ v _. ended_Plays f (seal deps tc f.result.steps v) q))

-- A turn of a valid run that plays returns such a run.
pub run_turn_cycle-Plays :
    (deps : TurnCycleDependencies) (fuel : ℕ) (run : Run) (h : Harness)
    → Plays run
    → Ends Any (λ o _. Plays o.run) (run_turn_cycle deps fuel run h)
unfolding run_turn_cycle
run_turn_cycle-Plays deps fuel run h q =
    let found = detect_between_turns deps h in
    Ends-bind Any (λ _ _. Unit {0}) (λ o _. Plays o.run) found _ (anything found)
      (λ _ s _.
        let took = take_quicksave deps s in
        Ends-bind Any (λ _ _. Unit {0}) (λ o _. Plays o.run) took _ (anything took)
          (λ save v _.
            Ends-bind Any (λ f _. Plays f.run) (λ o _. Plays o.run)
              (attempts deps save fuel deps.attempt_index_base run v) _
              (attempts-Finishes deps save fuel deps.attempt_index_base run v q)
              (λ f z p. persist_and_end-Plays deps save f z p)))
