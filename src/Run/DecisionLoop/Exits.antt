-- ===== src/Run/DecisionLoop/Exits.antt =====
-- The loop against the abstract attempt: its steps, the ways out of it, and that it gets there.
use civ_sim_taskify.Prelude.{
  ℕ, suc, ◌+◌, ◌*◌, ◌≤◌, ◌<◌, ◌≡◌, ◌≢◌, refl, sym, subst, ◌∙◌, Bool, true, false, List, [], ◌∷◌,
  length, arith, All, ◌⊎◌, inl, inr, if◌then◌else◌,
}
use civ_sim_taskify.Models.Turn.{StepProgress, changed_state, no_change, rejected}
use civ_sim_taskify.NoProgress.{NoProgressTracker, record_progress, tripped}
use civ_sim_taskify.Run.Actions.{Outcome, failed, returned}
use civ_sim_taskify.Run.LoopState.{
  Live, DecisionLoopContext, DecisionStepBundle, DecisionLoopResult, Failure, raised,
  mid_turn_observation_failure, unknown_screen_encountered, out_of_fuel,
}
use civ_sim_taskify.Run.FreshRead.{images_permitted_for_run}
use civ_sim_taskify.Run.Attempt.{after, IsVerified, Attempt, Unfinished, so_far, went_on}
use civ_sim_taskify.Run.DecisionLoop.{run_decision_loop}
use civ_sim_taskify.Run.DecisionLoop.Rule.{IsKept}
use civ_sim_taskify.Run.DecisionLoop.Starts.{start, FailedRun, EndedRun, run_decision_loop-Ends}
use civ_sim_taskify.Run.Actions.{Ends}

abbrev Nothing : Live → Type 0
Nothing s = Unit

abbrev Whatever : Bool → Live → Type 0
Whatever b s = Unit

nothing_kept :
    (ctx : DecisionLoopContext) (permitted : Bool)
    → IsKept ctx permitted (λ _ s. Nothing s) Whatever
nothing_kept ctx permitted = record {
  quiet = λ e b s i. tt;
  stalled = λ e b s i. tt;
  looks = λ b s i. tt;
  captures = λ b s c i. tt;
  downgrades = λ b s r e h i. tt;
  writes = λ b s c blob u i. tt;
  asks = λ s c blob r h i. tt;
  records = λ b s c i. tt;
  acts = λ s before r k ps e a i. tt;
}

-- A run of the loop as a whole attempt or as the beginning of one.
abbrev pub Implements : DecisionLoopContext → ℕ → Outcome Failure DecisionLoopResult × Live → Type 0
Implements ctx fuel (returned r, s) =
    Attempt ctx (start ctx) 1 r.steps r.outcome r.final_no_progress_streak
Implements ctx fuel (failed (mid_turn_observation_failure steps events k), s) =
    Unfinished ctx (start ctx) 1 steps k
Implements ctx fuel (failed (out_of_fuel steps), s) =
    (k : ℕ) × Unfinished ctx (start ctx) 1 steps k × (length steps ≡ fuel)
Implements ctx fuel (failed (raised e), s) = Unit
Implements ctx fuel (failed (unknown_screen_encountered e), s) = Unit

module _ (ctx : DecisionLoopContext) (fuel : ℕ) (s : Live) where
  abbrev kept : IsKept ctx (images_permitted_for_run s.run) (λ _ s'. Nothing s') Whatever
  kept = nothing_kept ctx (images_permitted_for_run s.run)

  implements :
      (r : Outcome Failure DecisionLoopResult × Live)
      → Ends (FailedRun ctx s Nothing Whatever kept fuel) (EndedRun ctx s Nothing Whatever kept) r
      → Implements ctx fuel r
  implements (returned r, s') ((new, e, a), _) =
      subst (λ z. Attempt ctx (start ctx) 1 z r.outcome r.final_no_progress_streak) (sym e) a
  implements (failed (mid_turn_observation_failure steps events k), s') ((new, e, u), _) =
      subst (λ z. Unfinished ctx (start ctx) 1 z k) (sym e) u
  implements (failed (out_of_fuel steps), s') ((new, k, e, u, l), _) =
      subst (λ z. (j : ℕ) × Unfinished ctx (start ctx) 1 z j × (length z ≡ fuel)) (sym e) (k, u, l)
  implements (failed (raised e), s') h = tt
  implements (failed (unknown_screen_encountered e), s') h = tt

  pub run_decision_loop-Implements : Implements ctx fuel (run_decision_loop ctx fuel s)
  run_decision_loop-Implements =
      implements (run_decision_loop ctx fuel s)
        (run_decision_loop-Ends ctx s Nothing Whatever kept fuel tt)

stuck_step :
    (t : NoProgressTracker) (x : StepProgress)
    → x ≢ changed_state
    → ((record_progress t x).streak ≡ t.streak + 1) × ((record_progress t x).limit ≡ t.limit)
unfolding record_progress
stuck_step t changed_state h = absurd (h refl)
stuck_step t no_change h = (refl, refl)
stuck_step t rejected h = (refl, refl)

moved_step :
    (t : NoProgressTracker)
    → ((record_progress t changed_state).streak ≡ 0)
      × ((record_progress t changed_state).limit ≡ t.limit)
unfolding record_progress
moved_step t = (refl, refl)

not_tripped : (t : NoProgressTracker) → tripped t ≡ false → t.streak < t.limit
unfolding tripped
not_tripped t h = ground arith

-- How many of the steps changed the state.
abbrev pub is_change : StepProgress → Bool
is_change changed_state = true
is_change p = false

abbrev pub changes : List DecisionStepBundle → ℕ
changes [] = 0
changes (b ∷ bs) = (if is_change b.step.progress then 1 else 0) + changes bs

one_more : (l n : ℕ) → l * suc n ≡ l * n + l
one_more l n = omega arith

progress_cases :
    (x : StepProgress) → (x ≡ changed_state) ⊎ ((x ≢ changed_state) × (is_change x ≡ false))
progress_cases changed_state = inl refl
progress_cases no_change = inr ((λ e. cc), refl)
progress_cases rejected = inr ((λ e. cc), refl)

module _ (ctx : DecisionLoopContext) where
  -- Every step that changed the state was verified.
  abbrev pub AllVerified : List DecisionStepBundle → Type 0
  AllVerified = All (λ b. b.step.progress ≡ changed_state → IsVerified ctx b)

  all_verified :
      {t : NoProgressTracker} {i : ℕ} {bs : List DecisionStepBundle} {k : ℕ}
      → Unfinished ctx t i bs k
      → AllVerified bs
  all_verified so_far = tt
  all_verified (went_on step flag trip u) = (step.verified, all_verified u)

  -- Between two changes there are fewer steps than the limit.
  spread :
      (limit : ℕ) (t : NoProgressTracker) (i : ℕ) (bs : List DecisionStepBundle) (k : ℕ)
      → Unfinished ctx t i bs k
      → t.limit ≡ limit
      → t.streak < limit
      → t.streak + length bs < limit * suc (changes bs)
  spread limit t i bs k so_far same small = omega (arith, one_more limit 0)
  spread limit t i (b ∷ bs) k (went_on step flag trip u) same small =
      elim (progress_cases b.step.progress) [
        | inl e ↦
            let (a, c) = moved_step t in
            let streak : (after t b).streak ≡ 0 = rw e a in
            let limited : (after t b).limit ≡ limit = rw e (c ∙ same) in
            let rest =
              spread limit (after t b) (i + 1) bs k u limited
                (subst (λ z. (after t b).streak < z) limited (not_tripped (after t b) trip)) in
            rw e omega (arith, one_more limit (suc (changes bs)))
        | inr (stuck, e) ↦
            let (a, c) = stuck_step t b.step.progress stuck in
            let rest =
              spread limit (after t b) (i + 1) bs k u (c ∙ same)
                (subst (λ z. (after t b).streak < z) (c ∙ same) (not_tripped (after t b) trip)) in
            rw e (omega arith)
      ]

  -- An attempt that runs out of fuel has made more progress than the fuel divided by the limit.
  abbrev pub Progresses : ℕ → Outcome Failure DecisionLoopResult × Live → Type 0
  Progresses fuel (failed (out_of_fuel steps), s) =
      (fuel < ctx.no_progress_step_limit * suc (changes steps)) × AllVerified steps
  Progresses fuel r = Unit

  progresses :
      (fuel : ℕ) (r : Outcome Failure DecisionLoopResult × Live)
      → 1 ≤ ctx.no_progress_step_limit
      → Implements ctx fuel r
      → Progresses fuel r
  progresses fuel (returned r, s) low h = tt
  progresses fuel (failed (raised e), s) low h = tt
  progresses fuel (failed (mid_turn_observation_failure steps events k), s) low h = tt
  progresses fuel (failed (unknown_screen_encountered e), s) low h = tt
  progresses fuel (failed (out_of_fuel steps), s) low (k, u, l) =
      let a = spread ctx.no_progress_step_limit (start ctx) 1 steps k u refl (omega arith) in
      (omega arith, all_verified u)

  -- Where the limit of the backstop is at least one, an attempt ends unless its actions change the
  -- state again and again: whenever the fuel is used up, it is less than the limit times one more
  -- than the number of the steps that changed the state, and in each of these the action that the
  -- decision names was authorized and its own declaration verified it. So an attempt with `c` such
  -- steps at most ends within as many rounds as the limit times `c + 1`.
  pub run_decision_loop-ends :
      (fuel : ℕ) (s : Live)
      → 1 ≤ ctx.no_progress_step_limit
      → Progresses fuel (run_decision_loop ctx fuel s)
  run_decision_loop-ends fuel s low =
      progresses fuel (run_decision_loop ctx fuel s) low (run_decision_loop-Implements ctx fuel s)
