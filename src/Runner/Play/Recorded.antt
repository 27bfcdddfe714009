-- ===== src/Runner/Play/Recorded.antt =====
-- No run is left playing with nothing that says so.
use civ_sim_taskify.Prelude.{
  ◌≡◌, refl, sym, ap, subst, ◌∙◌, ◌⊎◌, inl, inr, Bool, true, false, Option, none, some, if_both,
  Bool-cases,
}
use civ_sim_taskify.Errors.{Error, Result, ok, err}
use civ_sim_taskify.Models.Run.{
  Run, Timestamp, LifecycleState, paused, finished, StopResolution, is_terminal,
}
use civ_sim_taskify.Models.Event.{RunEvent}
use civ_sim_taskify.Lifecycle.Graph.{Edge, pause}
use civ_sim_taskify.Lifecycle.Transition.{transition-eq-ok_iff}
use civ_sim_taskify.Resilience.Recovery.{write_run_event, update_state, update_ended}
use civ_sim_taskify.Resilience.Recovery.Outcomes.{transition_state}
use civ_sim_taskify.Store.Completeness.{refresh_run_completeness}
use civ_sim_taskify.Run.Actions.{Outcome, failed, returned, and_then, modify, Ends, Ends-bind}
use civ_sim_taskify.Turn.State.{TurnFailure, raised}
use civ_sim_taskify.Turn.Attempts.Plays.{Plays}
use civ_sim_taskify.Turn.Cycle.{refresh}
use civ_sim_taskify.Runner.State.{
  Runner, RunnerDependencies, PlayFailure, failing, still_playing, with_run, refreshed, recorded,
  advance, finish,
}
use civ_sim_taskify.Runner.Failures.{
  is_caught, ends_run, event_of, with_event, noted, pause_on_failure,
  resync_after_external_termination, handle_run_failure,
}
use civ_sim_taskify.Runner.Play.{or_unexpected}

-- Paused or ended.
abbrev pub is_halted : LifecycleState → Bool
is_halted paused = true
is_halted s = is_terminal s

-- The runner and the store agree that the run is paused or has ended.
abbrev pub IsHalted : Runner → Type 0
IsHalted r =
    (r.harness.store.run.lifecycle_state ≡ r.state.run.lifecycle_state)
    × (is_halted r.state.run.lifecycle_state ≡ true)

terminal_halted : (s : LifecycleState) → is_terminal s ≡ true → is_halted s ≡ true
terminal_halted LifecycleState.preparing h = cc
terminal_halted LifecycleState.playing h = cc
terminal_halted LifecycleState.waiting_on_model h = cc
terminal_halted LifecycleState.waiting_on_game h = cc
terminal_halted LifecycleState.paused h = refl
terminal_halted LifecycleState.interrupted h = cc
terminal_halted LifecycleState.resuming h = cc
terminal_halted LifecycleState.finished h = refl
terminal_halted LifecycleState.failed h = refl

module _ (deps : RunnerDependencies) where
  refreshed-IsHalted : (r : Runner) → IsHalted r → IsHalted (refreshed deps r)
  unfolding refresh refresh_run_completeness
  refreshed-IsHalted r (a, b) = (a, b)

  -- A recorded transition into a state of rest, or an exception that changes nothing.
  module _ (X : PlayFailure → Runner → Type 0) (r : Runner)
      (fails : (e : Error) → X (failing (raised e)) r) where
    advanced :
        (to : LifecycleState) (x : Result (Run × RunEvent))
        → is_halted to ≡ true
        → ((run : Run) (e : RunEvent) → x ≡ ok (run, e) → run.lifecycle_state ≡ to)
        → Ends X (λ _ s. IsHalted s) (recorded deps update_state x r)
    unfolding update_state write_run_event
    advanced to (err e) h k = fails e
    advanced to (ok (run, e)) h k = (refl, ap is_halted (k run e refl) ∙ h)

    ended :
        (to : LifecycleState) (x : Result (Run × RunEvent))
        → is_halted to ≡ true
        → ((run : Run) (e : RunEvent) → x ≡ ok (run, e) → run.lifecycle_state ≡ to)
        → Ends X (λ _ s. IsHalted s) (recorded deps update_ended x r)
    unfolding update_ended write_run_event
    ended to (err e) h k = fails e
    ended to (ok (run, e)) h k = (refl, ap is_halted (k run e refl) ∙ h)

    pub advance-Ends : Ends X (λ _ s. IsHalted s) (advance deps paused r)
    unfolding advance
    advance-Ends =
        advanced paused _ refl
          (λ run e same. transition_state r.state.run paused _ _ none none same)

    then_refreshed :
        (m : Outcome PlayFailure (Unit {0}) × Runner)
        → Ends X (λ _ s. IsHalted s) m
        → Ends X (λ _ s. IsHalted s) (and_then m (λ _. modify (refreshed deps)))
    then_refreshed m h =
        Ends-bind X (λ _ s. IsHalted s) (λ _ s. IsHalted s) m _ h (λ _ s i. refreshed-IsHalted s i)

    pub finish-Ends : (res : StopResolution) → Ends X (λ _ s. IsHalted s) (finish deps res r)
    unfolding finish
    finish-Ends res = then_refreshed _ (
        ended finished _ refl
          (λ run e same. transition_state r.state.run finished _ _ none (some res) same))

  -- A run that plays can be paused.
  pause_ok :
      (X : PlayFailure → Runner → Type 0) (r : Runner)
      → Plays r.state.run
      → Ends X (λ _ s. IsHalted s) (advance deps paused r)
  unfolding advance update_state write_run_event
  pause_ok X r (plays, valid) =
      let edge : Edge r.state.run.lifecycle_state paused =
        subst (λ z. Edge z paused) (sym plays) pause in
      let t =
        (transition-eq-ok_iff r.state.run paused (deps.clock r.harness.deeds 0) r.state.current_turn
            none none valid).1
          (edge, record { only_terminal = λ h. cc; finished_needs = λ h. cc }) in
      subst (λ x. Ends X (λ _ s. IsHalted s) (recorded deps update_state x r)) (sym t)
        (let same =
            transition_state r.state.run paused (deps.clock r.harness.deeds 0) r.state.current_turn
              none none t in
          (refl, ap is_halted same))

  not_terminal : (run : Run) → Plays run → is_terminal run.lifecycle_state ≡ false
  not_terminal run (plays, valid) = ap is_terminal plays

  pause_on_failure-Ends :
      (X : PlayFailure → Runner → Type 0) (r : Runner)
      → is_terminal r.state.run.lifecycle_state ≡ false
      → Ends X (λ _ s. IsHalted s) (advance deps paused r)
      → Ends X (λ _ s. IsHalted s) (pause_on_failure deps r)
  unfolding pause_on_failure
  pause_on_failure-Ends X r open_run h = rw open_run (
      Ends-bind X (λ _ s. IsHalted s) (λ _ s. IsHalted s) (advance deps paused r) _ h
        (λ _ s i. refreshed-IsHalted s i))

  -- It was an exception, and not the fuel, and the store does not have the run as ended.
  abbrev Raises : PlayFailure → Runner → Type 0
  Raises (failing f) r = is_terminal r.harness.store.run.lifecycle_state ≡ false
  Raises still_playing r = ⊥

  resync-Ends :
      (r : Runner) → Ends Raises (λ _ s. IsHalted s) (resync_after_external_termination deps r)
  unfolding resync_after_external_termination
  resync-Ends r =
      let synced = with_run r.harness.store.run r in
      if_both (Ends Raises (λ _ s. IsHalted s)) (is_terminal r.harness.store.run.lifecycle_state)
        (λ over. refreshed-IsHalted synced (refl, terminal_halted _ over))
        (λ open_run.
          pause_on_failure-Ends Raises synced open_run (advance-Ends Raises synced (λ e. open_run)))

  -- The rounds have raised `g`, and `f` leaves the loop. Either `g` is no exception of the harness,
  -- and it is `f`, or it is one of the two after which the recovery should have ended the run, and
  -- the store does not have the run as ended.
  abbrev pub IsUnhandled : TurnFailure → TurnFailure → Runner → Type 0
  IsUnhandled g f r =
      ((is_caught g ≡ false) × (f ≡ g))
      ⊎ ((is_caught g ≡ true)
          × (ends_run g ≡ true)
          × (is_terminal r.harness.store.run.lifecycle_state ≡ false))

  -- How the loop is left after rounds that end in this way, and that what is left says so.
  abbrev pub IsRecorded :
      Outcome PlayFailure (Unit {0}) → Outcome PlayFailure (Unit {0}) × Runner → Type 0
  IsRecorded rounds (returned u, r) = IsHalted r
  IsRecorded rounds (failed still_playing, r) = Plays r.state.run
  IsRecorded rounds (failed (failing f), r) =
      ((g : TurnFailure) × (rounds ≡ failed (failing g)) × IsUnhandled g f r)
      × ((at : Timestamp) × (r.state.last_error ≡ some (f, at)))

  unexpected-IsRecorded :
      (g : TurnFailure) (m : Outcome PlayFailure (Unit {0}) × Runner)
      → is_caught g ≡ true
      → ends_run g ≡ true
      → Ends Raises (λ _ s. IsHalted s) m
      → IsRecorded (failed (failing g)) (or_unexpected deps m)
  unexpected-IsRecorded g (returned u, r) c e h = h
  unexpected-IsRecorded g (failed (failing f), r) c e h = ((g, refl, inr (c, e, h)), (_, refl))
  unexpected-IsRecorded g (failed still_playing, r) c e h = absurd h

  paused-IsRecorded :
      (g : TurnFailure) (m : Outcome PlayFailure (Unit {0}) × Runner)
      → Ends (λ _ _. ⊥) (λ _ s. IsHalted s) m
      → IsRecorded (failed (failing g)) (or_unexpected deps m)
  paused-IsRecorded g (returned u, r) h = h
  paused-IsRecorded g (failed f, r) h = absurd h

  with_event-Plays :
      (o : Option RunEvent) (r : Runner) → Plays r.state.run → Plays (with_event o r).state.run
  with_event-Plays none r p = p
  with_event-Plays (some e) r p = p

  pub handled-IsRecorded :
      (f : TurnFailure) (r : Runner)
      → is_caught f ≡ true
      → Plays r.state.run
      → IsRecorded (failed (failing f)) (or_unexpected deps (handle_run_failure deps f r))
  unfolding handle_run_failure
  handled-IsRecorded f r caught p = elim (Bool-cases (ends_run f)) [
    | inl over ↦ rw over (unexpected-IsRecorded f _ caught over (resync-Ends (noted deps f r)))
    | inr other ↦
        let s = with_event (event_of f) (noted deps f r) in
        let q = with_event-Plays (event_of f) (noted deps f r) p in
        rw other (
          paused-IsRecorded f (pause_on_failure deps s)
            (pause_on_failure-Ends (λ _ _. ⊥) s (not_terminal s.state.run q) (pause_ok _ s q)))
  ]
