-- ===== src/Runner/Commands/Skips.antt =====
-- A run that a failed turn has paused, and its resumption.
use civ_sim_taskify.Prelude.{
  ℕ, suc, ◌≡◌, refl, sym, ap, subst, ◌∙◌, true, false, Option, some, List, [], ◌∷◌, if_both,
}
use civ_sim_taskify.Models.Run.{
  Run, Timestamp, playing, paused, resuming, is_terminal, same_state, IsValid,
}
use civ_sim_taskify.Lifecycle.Graph.{Edge, unpause}
use civ_sim_taskify.Run.Actions.{failed, returned, and_then}
use civ_sim_taskify.Turn.State.{Harness, TurnFailure}
use civ_sim_taskify.Turn.Attempts.Plays.{Plays}
use civ_sim_taskify.Turn.Cycle.{run_turn_cycle}
use civ_sim_taskify.Runner.State.{Request, RunState, Runner, RunnerDependencies, failing}
use civ_sim_taskify.Runner.Failures.{is_caught, ends_run, handle_run_failure}
use civ_sim_taskify.Runner.Play.{
  next_turn, received, all_received, of_turn, after_turn, unless_over, play_turn, play_on, handled,
  or_unexpected, play_run,
}
use civ_sim_taskify.Runner.Play.Rounds.{all_received-run}
use civ_sim_taskify.Runner.Commands.{withdrawn, request_resume}
use civ_sim_taskify.Runner.Failures.Pauses.{moves, handle_pauses}

-- The state of a run at a turn boundary with no request.
abbrev pub boundary : Run → Option ℕ → Option (TurnFailure × Timestamp) → Harness → Runner
boundary run last error h = record {
  state = record {
    run = run;
    current_turn = last;
    pause_requested = false;
    stop_requested = false;
    last_error = error;
  };
  harness = h;
}

module _ (deps : RunnerDependencies) where
  resumes :
      (r : Runner)
      → IsValid r.state.run
      → r.state.run.lifecycle_state ≡ paused
      → (s : Runner) × (request_resume deps r ≡ (returned true, s))
        × (s.state.current_turn ≡ r.state.current_turn)
  unfolding request_resume
  resumes r valid at_rest =
      let is_paused : same_state r.state.run.lifecycle_state paused ≡ true =
        ap (λ z. same_state z paused) at_rest in
      let (s, e, m) =
        moves deps playing r valid (subst (λ z. Edge z playing) (sym at_rest) unpause)
          (record { only_terminal = λ h. cc; finished_needs = λ h. cc }) in
      (
        withdrawn s,
        rw is_paused (ap (λ x. and_then x (λ _ v. (returned true, withdrawn v))) e),
        m.same_turn,
      )

  received-turn : (q : Request) (s : RunState) → (received q s).current_turn ≡ s.current_turn
  received-turn Request.pause s =
      if_both (λ (z : RunState). z.current_turn ≡ s.current_turn)
        (same_state s.run.lifecycle_state playing) (λ _. refl) (λ _. refl)
  received-turn Request.resume s =
      if_both (λ (z : RunState). z.current_turn ≡ s.current_turn)
        (same_state s.run.lifecycle_state playing) (λ _. refl) (λ _. refl)
  received-turn Request.stop s =
      if_both (λ (z : RunState). z.current_turn ≡ s.current_turn)
        (is_terminal s.run.lifecycle_state) (λ _. refl) (λ _. refl)

  all_received-turn :
      (qs : List Request) (s : RunState) → (all_received qs s).current_turn ≡ s.current_turn
  all_received-turn [] s = refl
  all_received-turn (q ∷ qs) s = all_received-turn qs (received q s) ∙ received-turn q s

  module _ (run : Run) (last : Option ℕ) (error : Option (TurnFailure × Timestamp)) (h h' : Harness)
      (f : TurnFailure) where
    abbrev turn : ℕ
    turn = next_turn last

    abbrev begun : RunState
    begun = (boundary run (some turn) error h).state

    abbrev stopped_at : Runner
    stopped_at = record { state = all_received (deps.requests_during h'.deeds) begun; harness = h' }

    stops :
        (n : ℕ)
        → run_turn_cycle (deps.build_turn_dependencies turn) deps.attempts_fuel run h
          ≡ (failed f, h')
        → play_on deps (suc n) (boundary run last error h) ≡ (failed (failing f), stopped_at)
    unfolding play_on play_turn
    stops n e =
        ap
          (λ m.
            and_then (and_then (of_turn deps begun m) (after_turn deps turn))
              (unless_over deps (play_on deps n)))
          e

    -- From a turn boundary of a valid run that plays, with no request pending: if the next turn
    -- raises an exception of the harness, other than the two after which the recovery has ended the
    -- run, the play loop returns with the run paused and that turn as the last one begun, whatever
    -- the operator requested meanwhile; and when the run is resumed, the next turn that is played is
    -- the one after it, though the failed one has not been completed.
    pub failed_turn_is_skipped :
        (n : ℕ)
        → Plays run
        → is_caught f ≡ true
        → ends_run f ≡ false
        → run_turn_cycle (deps.build_turn_dependencies turn) deps.attempts_fuel run h
          ≡ (failed f, h')
        → (s : Runner) × (v : Runner) × (play_run deps (suc n) (boundary run last error h)
            ≡ (returned tt, s))
          × (s.state.run.lifecycle_state ≡ paused)
          × (s.state.current_turn ≡ some turn)
          × (request_resume deps s ≡ (returned true, v))
          × (next_turn v.state.current_turn ≡ suc turn)
    unfolding play_run
    failed_turn_is_skipped n p caught other e =
        let q = subst Plays (sym (all_received-run (deps.requests_during h'.deeds) begun)) p in
        let (s, done, m) = handle_pauses deps f stopped_at other q in
        let at = m.same_turn ∙ all_received-turn (deps.requests_during h'.deeds) begun in
        let (v, again, same) = resumes s m.valid m.now in
        (
          s,
          v,
          ap (handled deps) (stops n e) ∙ rw caught (ap (or_unexpected deps) done),
          m.now,
          at,
          again,
          ap next_turn (same ∙ at),
        )

  -- Where the runner still has a valid run as playing and the recovery has left it resuming in the
  -- store, the handling of a failure, other than the two after which the recovery has ended the run,
  -- takes the run in the store from resuming to paused, which is no edge of the diagram.
  pub stale_pause :
      (f : TurnFailure) (r : Runner)
      → ends_run f ≡ false
      → Plays r.state.run
      → r.harness.store.run.lifecycle_state ≡ resuming
      → (s : Runner) × (handle_run_failure deps f r ≡ (returned tt, s))
        × (s.harness.store.run.lifecycle_state ≡ paused)
        × ¬ Edge r.harness.store.run.lifecycle_state s.harness.store.run.lifecycle_state
  stale_pause f r other p before =
      let (s, done, m) = handle_pauses deps f r other p in
      (
        s,
        done,
        m.stored,
        λ edge. no_edge (
            subst (λ z. Edge z paused) before
              (subst (λ z. Edge r.harness.store.run.lifecycle_state z) m.stored edge)),
      )
    where
      no_edge : Edge resuming paused → ⊥
      no_edge edge = elim edge [ ]
