-- ===== src/Run/DecisionLoop/Comparability.antt =====
-- What an attempt does to the record of its run.
use civ_sim_taskify.Prelude.{ℕ, ◌≡◌, refl, sym, ◌∙◌, ◌⊎◌, inl, inr, Bool, Option, some}
use civ_sim_taskify.Models.Run.{Run, comparable, visually_degraded}
use civ_sim_taskify.Run.Actions.{Outcome, failed, returned, Ends}
use civ_sim_taskify.Run.LoopState.{Live, DecisionLoopContext, DecisionLoopResult, Failure}
use civ_sim_taskify.Run.FreshRead.{images_permitted_for_run}
use civ_sim_taskify.Run.DecisionLoop.{run_decision_loop}
use civ_sim_taskify.Run.DecisionLoop.Rule.{IsKept}
use civ_sim_taskify.Run.DecisionLoop.Starts.{FailedRun, EndedRun, run_decision_loop-Ends}

-- The record is as it was, or has gone from comparable to visually degraded.
abbrev pub IsRunKept : Option Run → Option Run → Type 0
IsRunKept before now =
    (now ≡ before)
    ⊎ ((r : Run) × (before ≡ some r)
        × (r.comparability_status ≡ comparable)
        × (now ≡ some (record r { comparability_status = visually_degraded })))

module _ (before : Option Run) where
  lower_once :
      (now : Option Run) (r : Run)
      → now ≡ some r
      → r.comparability_status ≡ comparable
      → IsRunKept before now
      → IsRunKept before (some (record r { comparability_status = visually_degraded }))
  lower_once now r e c (inl same) = inr (r, sym same ∙ e, c, refl)
  lower_once now r e c (inr (q, was, was_comparable, is)) = absurd (cc)

  abbrev KeptRun : Live → Type 0
  KeptRun s = IsRunKept before s.run

  run_kept :
      (ctx : DecisionLoopContext) (permitted : Bool)
      → IsKept ctx permitted (λ _ s. KeptRun s) (λ b s. KeptRun s)
  run_kept ctx permitted = record {
    quiet = λ e b s i. i;
    stalled = λ e b s i. i;
    looks = λ b s i. i;
    captures = λ b s c i. i;
    downgrades = λ b s r e c i. lower_once s.run r e c i;
    writes = λ b s c blob u i. i;
    asks = λ s c blob r h i. i;
    records = λ b s c i. i;
    acts = λ s calls r k ps e a i. i;
  }

module _ (ctx : DecisionLoopContext) (fuel : ℕ) (s : Live) where
  abbrev kept :
      IsKept ctx
        (images_permitted_for_run s.run)
        (λ _ s'. KeptRun s.run s')
        (λ b s'. KeptRun s.run s')
  kept = run_kept s.run ctx (images_permitted_for_run s.run)

  ended_kept :
      (r : Outcome Failure DecisionLoopResult × Live)
      → Ends
          (FailedRun ctx s (KeptRun s.run) (λ b s'. KeptRun s.run s') kept fuel)
          (EndedRun ctx s (KeptRun s.run) (λ b s'. KeptRun s.run s') kept)
          r
      → KeptRun s.run r.1
  ended_kept (returned r, s') (_, h) = h
  ended_kept (failed f, s') (_, h) = h

  -- Whichever way an attempt ends, the record of the run is as it was before, but for a comparability
  -- status that may have gone from comparable to visually degraded: no status is ever raised, and
  -- an unknown run stays unknown.
  pub run_decision_loop-IsRunKept : IsRunKept s.run ((run_decision_loop ctx fuel s).1.run)
  run_decision_loop-IsRunKept =
      ended_kept (run_decision_loop ctx fuel s) (
        run_decision_loop-Ends ctx s (KeptRun s.run) (λ b s'. KeptRun s.run s') kept fuel
          (inl refl))
