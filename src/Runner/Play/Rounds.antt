-- ===== src/Runner/Play/Rounds.antt =====
-- The rounds of the play loop, and the theorem on the whole of it.
use civ_sim_taskify.Prelude.{
  ℕ, zero, suc, ◌≡◌, refl, sym, subst, ◌∙◌, Bool, true, false, Option, none, some, List, [], ◌∷◌,
  if_both, Bool-cases, inl, inr,
}
use civ_sim_taskify.Models.Run.{playing, StopResolution, operator_stop, same_state, is_terminal}
use civ_sim_taskify.Stop.{evaluate_stop}
use civ_sim_taskify.Run.Actions.{Outcome, failed, returned, and_then, pure, Ends, Ends-bind}
use civ_sim_taskify.Turn.State.{Harness, TurnFailure, TurnCycleOutcome}
use civ_sim_taskify.Turn.Attempts.Plays.{Plays, Any, run_turn_cycle-Plays}
use civ_sim_taskify.Runner.State.{
  RunState, Runner, Request, pause, resume, stop, RunnerDependencies, PlayFailure, failing,
  still_playing, with_run, finish,
}
use civ_sim_taskify.Runner.Failures.{is_caught}
use civ_sim_taskify.Runner.Play.{
  next_turn, received, all_received, with_coincident, resolved, after_turn, of_turn, at_turn,
  run_turn, play_turn, unless_over, play_on, handled, play_run,
}
use civ_sim_taskify.Runner.Play.Recorded.{
  IsHalted, advance-Ends, finish-Ends, IsRecorded, handled-IsRecorded,
}

received-run : (q : Request) (s : RunState) → (received q s).run ≡ s.run
received-run pause s =
    if_both (λ (z : RunState). z.run ≡ s.run) (same_state s.run.lifecycle_state playing) (λ _. refl)
      (λ _. refl)
received-run resume s =
    if_both (λ (z : RunState). z.run ≡ s.run) (same_state s.run.lifecycle_state playing) (λ _. refl)
      (λ _. refl)
received-run stop s =
    if_both (λ (z : RunState). z.run ≡ s.run) (is_terminal s.run.lifecycle_state) (λ _. refl)
      (λ _. refl)

pub all_received-run : (qs : List Request) (s : RunState) → (all_received qs s).run ≡ s.run
all_received-run [] s = refl
all_received-run (q ∷ qs) s = all_received-run qs (received q s) ∙ received-run q s

module _ (deps : RunnerDependencies) where
  abbrev Still : PlayFailure → Runner → Type 0
  Still e r = Plays r.state.run

  abbrev GoesOn : Bool → Runner → Type 0
  GoesOn true r = Plays r.state.run
  GoesOn false r = IsHalted r

  left :
      (m : Outcome PlayFailure (Unit {0}) × Runner)
      → Ends Still (λ _ s. IsHalted s) m
      → Ends Still GoesOn (and_then m (λ _. pure false))
  left m h = Ends-bind Still (λ _ s. IsHalted s) GoesOn m (λ _. pure false) h (λ _ s i. i)

  of_turn-Ends :
      (s : RunState) (m : Outcome TurnFailure TurnCycleOutcome × Harness)
      → Plays s.run
      → Ends Any (λ o _. Plays o.run) m
      → Ends Still (λ o _. Plays o.run) (of_turn deps s m)
  of_turn-Ends s (failed f, h) p q =
      subst Plays (sym (all_received-run (deps.requests_during h.deeds) s)) p
  of_turn-Ends s (returned o, h) p q = q

  coincident-run :
      (turn : ℕ) (cs : List StopResolution) (r : Runner)
      → Plays r.state.run
      → Plays (with_coincident deps turn cs r).state.run
  coincident-run turn [] r p = p
  coincident-run turn (c ∷ cs) r p = coincident-run turn cs _ p

  resolved-Ends :
      (s : Option StopResolution) (r : Runner)
      → Plays r.state.run
      → Ends Still GoesOn (resolved deps s r)
  resolved-Ends none r p = p
  resolved-Ends (some s) r p = left (finish deps s r) (finish-Ends deps Still r (λ e. p) s)

  play_turn-Ends : (r : Runner) → Plays r.state.run → Ends Still GoesOn (play_turn deps r)
  unfolding play_turn
  play_turn-Ends r p =
      if_both (Ends Still GoesOn) r.state.stop_requested
        (λ _. left _ (finish-Ends deps Still r (λ e. p) operator_stop))
        (λ _.
          if_both (Ends Still GoesOn) r.state.pause_requested
            (λ _. left _ (advance-Ends deps Still r (λ e. p)))
            (λ _.
              let turn = next_turn r.state.current_turn in
              let s = at_turn deps turn r in
              Ends-bind Still (λ o _. Plays o.run) GoesOn (run_turn deps turn s)
                (after_turn deps turn)
                (of_turn-Ends s.state _ p (
                  run_turn_cycle-Plays (deps.build_turn_dependencies turn) deps.attempts_fuel
                    r.state.run r.harness p))
                (λ o v q.
                  let d =
                    evaluate_stop deps.stop_condition
                      (deps.evaluate_stop_facts v.harness.deeds turn) in
                  resolved-Ends d.resolution
                    (with_coincident deps turn d.coincident (with_run o.run v))
                    (coincident-run turn d.coincident (with_run o.run v) q))))

  again :
      (n : ℕ) (b : Bool) (s : Runner)
      → ((v : Runner) → Plays v.state.run → Ends Still (λ _ w. IsHalted w) (play_on deps n v))
      → GoesOn b s
      → Ends Still (λ _ v. IsHalted v) (unless_over deps (play_on deps n) b s)
  again n true s rest q = rest s q
  again n false s rest q = q

  play_on-Ends :
      (fuel : ℕ) (r : Runner)
      → Plays r.state.run
      → Ends Still (λ _ s. IsHalted s) (play_on deps fuel r)
  unfolding play_on
  play_on-Ends zero r p = p
  play_on-Ends (suc n) r p =
      Ends-bind Still GoesOn (λ _ s. IsHalted s) (play_turn deps r) _ (play_turn-Ends r p)
        (λ b s q. again n b s (play_on-Ends n) q)

  whole :
      (m : Outcome PlayFailure (Unit {0}) × Runner)
      → Ends Still (λ _ s. IsHalted s) m
      → IsRecorded deps m.0 (handled deps m)
  whole (returned u, r) h = h
  whole (failed still_playing, r) h = h
  whole (failed (failing f), r) h = elim (Bool-cases (is_caught f)) [
    | inl caught ↦ rw caught (handled-IsRecorded deps f r caught h)
    | inr other ↦ rw other ((f, refl, inl (other, refl)), (_, refl))
  ]

  -- However the play loop of a valid run that plays is left, by the stop condition, by the operator
  -- or by any exception of a turn, the run is paused or has ended and the store says the same; or
  -- the loop itself raises, and the last error names what was raised. It raises only if its rounds
  -- have raised an exception: one that is none of the harness is raised as it is; and one of the
  -- two after which the recovery has ended the run only leads to an exception where the store does
  -- not have the run as ended. Until the fuel for the turns is used up the run plays.
  pub play_run-IsRecorded :
      (fuel : ℕ) (r : Runner)
      → Plays r.state.run
      → IsRecorded deps (play_on deps fuel r).0 (play_run deps fuel r)
  unfolding play_run
  play_run-IsRecorded fuel r p = whole (play_on deps fuel r) (play_on-Ends fuel r p)
