-- ===== src/Runner/Failures/Pauses.antt =====
-- A failure pauses the run, by the record of the runner and of the store.
use civ_sim_taskify.Prelude.{◌≡◌, refl, sym, ap, subst, false, Option, none, some}
use civ_sim_taskify.Models.Run.{LifecycleState, paused, is_terminal, IsValid}
use civ_sim_taskify.Models.Event.{RunEvent}
use civ_sim_taskify.Lifecycle.Graph.{Edge, pause}
use civ_sim_taskify.Lifecycle.Transition.{IsResolved, transition-eq-ok_iff, transition-IsValid}
use civ_sim_taskify.Resilience.Recovery.{write_run_event, update_state}
use civ_sim_taskify.Resilience.Recovery.Outcomes.{transition_state}
use civ_sim_taskify.Store.Completeness.{refresh_run_completeness}
use civ_sim_taskify.Run.Actions.{returned, and_then, modify}
use civ_sim_taskify.Turn.State.{TurnFailure}
use civ_sim_taskify.Turn.Attempts.Plays.{Plays}
use civ_sim_taskify.Turn.Cycle.{refresh}
use civ_sim_taskify.Runner.State.{Runner, RunnerDependencies, refreshed, recorded, advance}
use civ_sim_taskify.Runner.Failures.{
  ends_run, event_of, with_event, noted, pause_on_failure, handle_run_failure,
}

module _ (deps : RunnerDependencies) where
  -- A move of the run's lifecycle that the runner and the store record, with the turn as it was.
  pub record HasMoved (to : LifecycleState) (r s : Runner) : Type 0 where
    pub now : s.state.run.lifecycle_state ≡ to
    pub valid : IsValid s.state.run
    pub stored : s.harness.store.run.lifecycle_state ≡ to
    pub same_turn : s.state.current_turn ≡ r.state.current_turn

  pub moves :
      (to : LifecycleState) (r : Runner)
      → IsValid r.state.run
      → Edge r.state.run.lifecycle_state to
      → IsResolved to none
      → (s : Runner) × (advance deps to r ≡ (returned tt, s)) × HasMoved to r s
  unfolding advance update_state write_run_event
  moves to r valid edge fits =
      let at = deps.clock r.harness.deeds 0 in
      let turn = r.state.current_turn in
      let t = (transition-eq-ok_iff r.state.run to at turn none none valid).1 (edge, fits) in
      let same = transition_state r.state.run to at turn none none t in
      (
        _,
        ap (λ x. recorded deps update_state x r) t,
        record {
          now = same;
          valid = transition-IsValid r.state.run to at turn none none t;
          stored = same;
          same_turn = refl;
        },
      )

  refreshed-HasMoved :
      (to : LifecycleState) (r s : Runner) → HasMoved to r s → HasMoved to r (refreshed deps s)
  unfolding refresh refresh_run_completeness
  refreshed-HasMoved to r s m = record {
    now = m.now;
    valid = m.valid;
    stored = m.stored;
    same_turn = m.same_turn;
  }

  pauses :
      (r : Runner)
      → Plays r.state.run
      → (s : Runner) × (pause_on_failure deps r ≡ (returned tt, s)) × HasMoved paused r s
  unfolding pause_on_failure
  pauses r (plays, valid) =
      let open_run : is_terminal r.state.run.lifecycle_state ≡ false = ap is_terminal plays in
      let (s, e, m) =
        moves paused r valid (subst (λ z. Edge z paused) (sym plays) pause)
          (record { only_terminal = λ h. cc; finished_needs = λ h. cc }) in
      (
        refreshed deps s,
        rw open_run (ap (λ x. and_then x (λ _. modify (refreshed deps))) e),
        refreshed-HasMoved paused r s m,
      )

  with_event-same :
      (o : Option RunEvent) (r s : Runner)
      → HasMoved paused (with_event o r) s
      → Plays r.state.run
      → HasMoved paused r s
  with_event-same none r s m p = m
  with_event-same (some e) r s m p = record {
    now = m.now;
    valid = m.valid;
    stored = m.stored;
    same_turn = m.same_turn;
  }

  with_event-Plays :
      (o : Option RunEvent) (r : Runner) → Plays r.state.run → Plays (with_event o r).state.run
  with_event-Plays none r p = p
  with_event-Plays (some e) r p = p

  -- A failure that the recovery has not recorded as the end of the run pauses it, also in the store.
  pub handle_pauses :
      (f : TurnFailure) (r : Runner)
      → ends_run f ≡ false
      → Plays r.state.run
      → (s : Runner) × (handle_run_failure deps f r ≡ (returned tt, s)) × HasMoved paused r s
  unfolding handle_run_failure
  handle_pauses f r other p =
      let n = noted deps f r in
      let (s, e, m) = pauses (with_event (event_of f) n) (with_event-Plays (event_of f) n p) in
      let q = with_event-same (event_of f) n s m p in
      (
        s,
        rw other e,
        record { now = q.now; valid = q.valid; stored = q.stored; same_turn = q.same_turn },
      )
