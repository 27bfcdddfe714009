-- ===== src/Turn/Attempts/Blind.antt =====
-- A game that cannot be read at the start of any attempt, and whose save always loads.
use civ_sim_taskify.Prelude.{
  ℕ, zero, suc, String, ◌≡◌, refl, ap, ◌∙◌, sym, subst, false, none, some, List, [], ◌∷◌,
}
use civ_sim_taskify.Errors.{ok}
use civ_sim_taskify.Models.Run.{playing, Run, IsValid}
use civ_sim_taskify.Models.Event.{RunEvent, observation_assembly_failed}
use civ_sim_taskify.Resilience.Recovery.{
  SavePoint, is_absent, recover_from_observation_assembly_error, write_run_event, event,
}
use civ_sim_taskify.Resilience.Recovery.Outcomes.{IsRecoverable, in_play}
use civ_sim_taskify.Resilience.Recovery.Works.{recover-Works}
use civ_sim_taskify.Run.Actions.{failed, returned, and_then}
use civ_sim_taskify.Run.LoopState.{Live, mid_turn_observation_failure}
use civ_sim_taskify.Run.DecisionLoop.{run_decision_loop}
use civ_sim_taskify.Turn.State.{
  Deed, recovering, Harness, TurnCycleDependencies, still_replaying, Do,
}
use civ_sim_taskify.Turn.Attempts.{
  Played, Finished, by_itself, watched, ran_through, run_decision_loop_watched, of_recovery,
  recover_from_error_now, on_played, attempts,
}

-- Whatever was done before, the first observation of an attempt cannot be assembled.
abbrev pub IsBlind : TurnCycleDependencies → Type 0
IsBlind deps =
    (ds : List Deed) (id : String) (s : Live)
    → (es : List RunEvent) × (k : ℕ) × (s' : Live) × (run_decision_loop
          (deps.build_loop_context ds id) deps.loop_fuel s
        ≡ (failed (mid_turn_observation_failure [] es k), s'))

module _ (deps : TurnCycleDependencies) (save : SavePoint) (blind : IsBlind deps)
    (unwatched : deps.detection ≡ none) (loads : (ds : List Deed) → deps.load ds save ≡ ok tt)
    (own : save.turn_number ≡ deps.turn_number) (present : is_absent save ≡ false) where
  recovers_again :
      (run : Run) (h : Harness)
      → IsValid run
      → run.lifecycle_state ≡ playing
      → (back : Run) × (s : Harness) × (recover_from_error_now deps run save h ≡ (returned back, s))
        × (back.lifecycle_state ≡ playing)
        × IsValid back
  unfolding recover_from_error_now recover_from_observation_assembly_error
  recovers_again run h v plays =
      let (r, w, e, p, u) =
        recover-Works deps.turn_number (deps.clock h.deeds 3) deps.recovery_limit
          (deps.load h.deeds) save run
          (write_run_event
            (event run.run_id (some deps.turn_number) (deps.clock h.deeds 2)
              observation_assembly_failed)
            h.store)
          v (subst IsRecoverable (sym plays) in_play) own present (loads h.deeds) in
      (
        r.run,
        _,
        ap (λ x. of_recovery deps x (record h { deeds = recovering save ∷ h.deeds })) e,
        p,
        u,
      )

  plays_blind :
      (h : Harness)
      → (es : List RunEvent) × (k : ℕ) × (s : Harness) × (run_decision_loop_watched deps
            (deps.build_loop_context h.deeds (deps.new_cycle_id h.deeds))
            (deps.new_cycle_id h.deeds)
            h
          ≡ (returned (by_itself (failed (mid_turn_observation_failure [] es k))), s))
  unfolding run_decision_loop_watched
  plays_blind h =
      let id = deps.new_cycle_id h.deeds in
      let (es, k, s', e) = blind h.deeds id (record { calls = []; run = some h.store.run }) in
      (
        es,
        k,
        _,
        ap (λ d. watched deps (deps.build_loop_context h.deeds id) id d h) unwatched
            ∙ ap (λ r. ran_through deps id r h) e,
      )

  -- Where the game can never be read at the start of an attempt, no watch runs beside it and the
  -- turn's save, which is on record, loads each time, a turn of a valid run that plays is replayed
  -- without bound: whatever the fuel for its attempts, it is used up, and no bound of the recovery
  -- is ever reached.
  pub attempts-Blind :
      (fuel i : ℕ) (run : Run) (h : Harness)
      → IsValid run
      → run.lifecycle_state ≡ playing
      → (attempts deps save fuel i run h).0 ≡ failed still_replaying
  unfolding attempts
  attempts-Blind zero i run h v plays = refl
  attempts-Blind (suc fuel) i run h v plays =
      let id = deps.new_cycle_id h.deeds in
      let (es, k, s, e) = plays_blind h in
      let (back, w, f, p, u) = recovers_again run s v plays in
      ap (λ x. (and_then x (continue i run h)).0) e
      ∙ ap (λ x. (and_then x (attempts deps save fuel (suc i))).0) f
      ∙ attempts-Blind fuel (suc i) back w u p
    where
      continue : ℕ → Run → Harness → Played → Do Finished
      continue i run h =
          on_played deps save (attempts deps save fuel) i run (deps.new_cycle_id h.deeds)
            (deps.clock h.deeds 5)
