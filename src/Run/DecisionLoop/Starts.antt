-- ===== src/Run/DecisionLoop/Starts.antt =====
-- The whole loop, from its first read on.
use civ_sim_taskify.Prelude.{
  ℕ, ◌≡◌, refl, sym, subst, Bool, true, false, [], ltb, arith, Bool-cases, inl, inr,
}
use civ_sim_taskify.Errors.{ok, unicode_error}
use civ_sim_taskify.NoProgress.{NoProgressTracker, new_tracker}
use civ_sim_taskify.Run.Actions.{Outcome, Ends, Ends-bind, and_then}
use civ_sim_taskify.Run.LoopState.{Live, DecisionLoopContext, DecisionLoopResult, Failure, lift}
use civ_sim_taskify.Run.FreshRead.{FreshObservation, observe_or_wrap, images_permitted_for_run}
use civ_sim_taskify.Run.Attempt.{so_far}
use civ_sim_taskify.Run.Step.{Position}
use civ_sim_taskify.Run.DecisionLoop.{rounds, run_decision_loop}
use civ_sim_taskify.Run.DecisionLoop.Rule.{IsKept}
use civ_sim_taskify.Run.DecisionLoop.Rule.Reads.{IsFresh, lift-Ends, observe_or_wrap-Ends}
use civ_sim_taskify.Run.DecisionLoop.Loops.{Retained, Completed, rounds-Ends}

-- The tracker of an attempt.
abbrev pub start : DecisionLoopContext → NoProgressTracker
start ctx = record { limit = ctx.no_progress_step_limit; streak = 0 }

new_tracker-start :
    (ctx : DecisionLoopContext) (t : NoProgressTracker)
    → new_tracker ctx.no_progress_step_limit ≡ ok t
    → start ctx ≡ t
unfolding new_tracker
new_tracker-start ctx t h = elim (Bool-cases (ltb ctx.no_progress_step_limit 1)) [
  | inl e ↦ absurd (ground arith)
  | inr e ↦ ground arith
]

module _ (ctx : DecisionLoopContext) (s : Live) (Z : Live → Type 0) (I : Bool → Live → Type 0)
    (kept : IsKept ctx (images_permitted_for_run s.run) (λ _ s'. Z s') I) where
  abbrev pub FailedRun : ℕ → Failure → Live → Type 0
  FailedRun fuel f s' = Retained ctx fuel (start ctx) 1 [] f × Z s'

  abbrev pub EndedRun : DecisionLoopResult → Live → Type 0
  EndedRun r s' = Completed ctx (start ctx) 1 [] r × I true s'

  starts : (fuel : ℕ) → IsKept ctx (images_permitted_for_run s.run) (FailedRun fuel) I
  starts fuel = record {
    quiet = λ e b s i. (tt, kept.quiet e b s i);
    stalled = λ e b s i. (tt, kept.stalled e b s i);
    looks = kept.looks;
    captures = kept.captures;
    downgrades = kept.downgrades;
    writes = kept.writes;
    asks = kept.asks;
    records = kept.records;
    acts = kept.acts;
  }

  abbrev first_position : NoProgressTracker → FreshObservation → Position
  first_position t fresh = record {
    step_index = 1;
    observation = fresh.observation;
    step_capture = fresh.step_capture;
    tracker = t;
    steps = [];
    events = fresh.events;
  }

  -- The loop behind the construction of its tracker.
  abbrev begun : ℕ → NoProgressTracker → Live → Outcome Failure DecisionLoopResult × Live
  begun fuel t s1 =
      and_then (observe_or_wrap ctx 1 [] [] t.streak s1)
        (λ fresh. rounds ctx fuel (images_permitted_for_run s1.run) (first_position t fresh))

  begun-Ends : (fuel : ℕ) → I false s → Ends (FailedRun fuel) EndedRun (begun fuel (start ctx) s)
  begun-Ends fuel i =
      let permitted = images_permitted_for_run s.run in
      Ends-bind (FailedRun fuel) (λ f s'. IsFresh 1 f × I true s') EndedRun
        (observe_or_wrap ctx 1 [] [] 0 s) _
        (observe_or_wrap-Ends ctx permitted (FailedRun fuel) I (starts fuel) [] [] 0
          (λ b s' j. (([], refl, so_far), kept.quiet unicode_error b s' j)) 1 false s i)
        (λ f s1 (fresh, j).
          rounds-Ends ctx permitted Z I kept fuel (first_position (start ctx) f) s1 fresh j)

  pub run_decision_loop-Ends :
      (fuel : ℕ) → I false s → Ends (FailedRun fuel) EndedRun (run_decision_loop ctx fuel s)
  unfolding run_decision_loop
  run_decision_loop-Ends fuel i =
      Ends-bind (FailedRun fuel) _ EndedRun (lift (new_tracker ctx.no_progress_step_limit) s) _
        (lift-Ends ctx (images_permitted_for_run s.run) (FailedRun fuel) I (starts fuel) _ false s
          i)
        (λ t s1 (made, same, _).
          subst (λ z. Ends (FailedRun fuel) EndedRun (begun fuel t z)) (sym same)
            (subst (λ z. Ends (FailedRun fuel) EndedRun (begun fuel z s))
              (new_tracker-start ctx t made) (begun-Ends fuel i)))
