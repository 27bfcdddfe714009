-- ===== src/Run/DecisionLoop/Loops.antt =====
-- The rounds of the loop from a position on, however they end.
use civ_sim_taskify.Prelude.{
  ℕ, zero, suc, ◌+◌, ◌≡◌, refl, sym, ap, subst, ◌∙◌, Bool, true, false, List, [], ◌∷◌, ◌++◌, length,
}
use mathlib.Core.List.{append_assoc, append-nil}
use civ_sim_taskify.Errors.{unicode_error}
use civ_sim_taskify.NoProgress.{NoProgressTracker, tripped}
use civ_sim_taskify.Run.Actions.{Outcome, failed, returned, Ends, Ends-bind}
use civ_sim_taskify.Run.LoopState.{
  Live, DecisionLoopContext, DecisionStepBundle, DecisionLoopResult, Failure, raised,
  mid_turn_observation_failure, unknown_screen_encountered, out_of_fuel,
}
use civ_sim_taskify.Run.Step.{Position, Round, ended, carried_on, round}
use civ_sim_taskify.Run.Attempt.{after, IsStep, Attempt, goes_on, Unfinished, so_far, went_on}
use civ_sim_taskify.Run.DecisionLoop.{rounds, next_round}
use civ_sim_taskify.Run.DecisionLoop.Rule.{IsKept}
use civ_sim_taskify.Run.DecisionLoop.Rule.Parts.{IsBound}
use civ_sim_taskify.Run.DecisionLoop.Rule.Rounds.{IsRound, round-Ends}

-- The steps from a tracker and an index on that an attempt had completed when it was abandoned, or
-- when the fuel for its rounds was used up.
abbrev pub Retained :
    DecisionLoopContext → ℕ → NoProgressTracker → ℕ → List DecisionStepBundle → Failure → Type 0
Retained ctx n t i earlier (raised e) = Unit
Retained ctx n t i earlier (unknown_screen_encountered e) = Unit
Retained ctx n t i earlier (mid_turn_observation_failure steps events k) =
    (new : List DecisionStepBundle) × (steps ≡ earlier ++ new) × Unfinished ctx t i new k
Retained ctx n t i earlier (out_of_fuel steps) =
    (new : List DecisionStepBundle) × (k : ℕ) × (steps ≡ earlier ++ new)
    × Unfinished ctx t i new k
    × (length new ≡ n)

abbrev pub Completed :
    DecisionLoopContext
    → NoProgressTracker
    → ℕ
    → List DecisionStepBundle
    → DecisionLoopResult
    → Type 0
Completed ctx t i earlier r =
    (new : List DecisionStepBundle) × (r.steps ≡ earlier ++ new)
    × Attempt ctx t i new r.outcome r.final_no_progress_streak

module _ (ctx : DecisionLoopContext) (t : NoProgressTracker) (i : ℕ)
    (earlier : List DecisionStepBundle) (b : DecisionStepBundle) (step : IsStep ctx t i b)
    (flag : b.decision.is_end_turn ≡ false) (trip : tripped (after t b) ≡ false) where
  Retained-step :
      (n : ℕ) (f : Failure)
      → Retained ctx n (after t b) (i + 1) (earlier ++ (b ∷ [])) f
      → Retained ctx (suc n) t i earlier f
  Retained-step n (raised e) h = tt
  Retained-step n (unknown_screen_encountered e) h = tt
  Retained-step n (mid_turn_observation_failure steps events k) (new, e, u) =
      (b ∷ new, e ∙ append_assoc earlier (b ∷ []) new, went_on step flag trip u)
  Retained-step n (out_of_fuel steps) (new, k, e, u, l) =
      (b ∷ new, k, e ∙ append_assoc earlier (b ∷ []) new, went_on step flag trip u, ap suc l)

  Completed-step :
      (r : DecisionLoopResult)
      → Completed ctx (after t b) (i + 1) (earlier ++ (b ∷ [])) r
      → Completed ctx t i earlier r
  Completed-step r (new, e, a) =
      (b ∷ new, e ∙ append_assoc earlier (b ∷ []) new, goes_on step flag trip a)

Ends-map :
    {A : Type 0} (X Y : Failure → Live → Type 0) (Q R : A → Live → Type 0)
    (r : Outcome Failure A × Live)
    → ((f : Failure) (s : Live) → X f s → Y f s)
    → ((a : A) (s : Live) → Q a s → R a s)
    → Ends X Q r
    → Ends Y R r
Ends-map X Y Q R (failed f, s) x q h = x f s h
Ends-map X Y Q R (returned a, s) x q h = q a s h

module _ (ctx : DecisionLoopContext) (permitted : Bool) (Z : Live → Type 0)
    (I : Bool → Live → Type 0) (kept : IsKept ctx permitted (λ _ s. Z s) I) where
  abbrev pub Left : ℕ → Position → Failure → Live → Type 0
  Left n p f s = Retained ctx n p.tracker p.step_index p.steps f × Z s

  leaves : (n : ℕ) (p : Position) → IsKept ctx permitted (Left n p) I
  leaves n p = record {
    quiet = λ e b s i. (tt, kept.quiet e b s i);
    stalled = λ e b s i. (tt, kept.stalled e b s i);
    looks = kept.looks;
    captures = kept.captures;
    downgrades = kept.downgrades;
    writes = kept.writes;
    asks = kept.asks;
    records = kept.records;
    acts = kept.acts;
  }

  abandoned :
      (n : ℕ) (p : Position) (b : Bool) (s : Live)
      → I b s
      → Left n p (mid_turn_observation_failure p.steps p.events p.tracker.streak) s
  abandoned n p b s i = (([], sym (append-nil p.steps), so_far), kept.quiet unicode_error b s i)

  abbrev pub Done : Position → DecisionLoopResult → Live → Type 0
  Done p r s = Completed ctx p.tracker p.step_index p.steps r × I true s

  round-then :
      (n : ℕ) (p : Position) (r : Round) (s1 : Live)
      → ((q : Position) (s' : Live)
          → IsBound q
          → I true s'
          → Ends (Left n q) (Done q) (rounds ctx n permitted q s'))
      → IsRound ctx permitted (Left (suc n) p) I (leaves (suc n) p) p r s1
      → Ends (Left (suc n) p) (Done p) (next_round (rounds ctx n permitted) r s1)
  round-then n p (ended r) s1 again (b, e, a, j) = ((b ∷ [], e, a), j)
  round-then n p (carried_on q) s1 again (b, e, step, flag, trip, t, index, bound', j) =
      Ends-map (Left n q) (Left (suc n) p) (Done q) (Done p) (rounds ctx n permitted q s1)
        (λ f s2 (h, z). (
          Retained-step ctx p.tracker p.step_index p.steps b step flag trip n f (
              subst (λ x. Retained ctx n x (p.step_index + 1) (p.steps ++ (b ∷ [])) f) t
                (subst (λ x. Retained ctx n q.tracker x (p.steps ++ (b ∷ [])) f) index
                  (subst (λ x. Retained ctx n q.tracker q.step_index x f) e h))),
          z,
        ))
        (λ r s2 (h, z). (
          Completed-step ctx p.tracker p.step_index p.steps b step flag trip r (
              subst (λ x. Completed ctx x (p.step_index + 1) (p.steps ++ (b ∷ [])) r) t
                (subst (λ x. Completed ctx q.tracker x (p.steps ++ (b ∷ [])) r) index
                  (subst (λ x. Completed ctx q.tracker q.step_index x r) e h))),
          z,
        ))
        (again q s1 bound' j)

  pub rounds-Ends :
      (n : ℕ) (p : Position) (s : Live)
      → IsBound p
      → I true s
      → Ends (Left n p) (Done p) (rounds ctx n permitted p s)
  unfolding rounds
  rounds-Ends zero p s bound i = (
    ([], p.tracker.streak, sym (append-nil p.steps), so_far, refl),
    kept.quiet unicode_error true s i,
  )
  rounds-Ends (suc n) p s bound i =
      Ends-bind (Left (suc n) p) (IsRound ctx permitted (Left (suc n) p) I (leaves (suc n) p) p)
        (Done p) (round ctx permitted p s) (next_round (rounds ctx n permitted))
        (round-Ends ctx permitted (Left (suc n) p) I (leaves (suc n) p) p s (abandoned (suc n) p)
          bound i)
        (λ r s1 h. round-then n p r s1 (rounds-Ends n) h)
