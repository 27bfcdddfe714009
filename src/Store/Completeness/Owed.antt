-- ===== src/Store/Completeness/Owed.antt =====
-- When a record is complete: a description by the turns that a run owes.
use civ_sim_taskify.Prelude.{
  ℕ, zero, suc, ◌+◌, ◌-◌, ◌≤◌, ◌<◌, ◌≡◌, ◌≢◌, ◌↔◌, refl, Bool, true, false, not, ◌||◌, List, [],
  ◌∷◌, All, Bool-cases, inl, inr, if◌then◌else◌, arith, ==_iff, ◌==◌, subst,
}
use civ_sim_taskify.Models.Run.{RecordCompletenessStatus, complete, has_gaps, unknown}
use civ_sim_taskify.Store.Completeness.{
  Reads, first_owed_turn, any_from, is_empty, highest, any_step_gap, record_completeness_status,
}

-- A run that has attempted a turn has every turn that it owes, and each without a gap in its steps.
pub record IsComplete (reads : Reads) : Type 0 where
  pub attempted : reads.list_save_points ≢ []
  pub turns : All (λ g. g < first_owed_turn reads.get_run) reads.turn_gaps
  pub steps :
      (turn : ℕ)
      → first_owed_turn reads.get_run ≤ turn
      → turn ≤ highest reads.list_save_points
      → reads.step_gaps turn ≡ []

none_from : (floor : ℕ) (gs : List ℕ) → (any_from floor gs ≡ false) ↔ All (λ g. g < floor) gs
none_from floor [] = ((λ h. tt), λ h. refl)
none_from floor (g ∷ gs) =
    let (f, k) = none_from floor gs in
    ((λ h. (ground arith, f (ground arith))), λ (a, b). let c = k b in ground arith)

empty_list : (xs : List ℕ) → is_empty xs ≡ true → xs ≡ []
empty_list [] h = refl
empty_list (x ∷ xs) h = absurd (cc)

empty_test : (xs : List ℕ) → xs ≡ [] → is_empty xs ≡ true
empty_test [] h = refl
empty_test (x ∷ xs) h = absurd (cc)

neither : (a b : Bool) → (not a || b) ≡ false → (a ≡ true) × (b ≡ false)
neither true b h = (refl, h)
neither false b h = absurd (cc)

by_tests : Bool → Bool → Bool → RecordCompletenessStatus
by_tests a b c = if a then unknown else if b then has_gaps else if c then has_gaps else complete

by_tests-complete :
    (a b c : Bool) → by_tests a b c ≡ complete → (a ≡ false) × (b ≡ false) × (c ≡ false)
unfolding by_tests
by_tests-complete true b c h = absurd (cc)
by_tests-complete false true c h = absurd (cc)
by_tests-complete false false true h = absurd (cc)
by_tests-complete false false false h = (refl, refl, refl)

module _ (gaps : ℕ → List ℕ) where
  no_gap :
      (turn left : ℕ)
      → any_step_gap gaps turn left ≡ false
      → (t : ℕ) → turn ≤ t
      → t < turn + left
      → gaps t ≡ []
  unfolding any_step_gap
  no_gap turn zero h t a b = absurd (omega arith)
  no_gap turn (suc left) h t a b =
      let (here, later) = neither (is_empty (gaps turn)) (any_step_gap gaps (turn + 1) left) h in
      elim (Bool-cases (turn == t)) [
        | inl e ↦ subst (λ z. gaps z ≡ []) ((==_iff turn t).0 e) (empty_list (gaps turn) here)
        | inr e ↦ no_gap (turn + 1) left later t (ground arith) (omega arith)
      ]

  all_given :
      (turn left : ℕ)
      → ((t : ℕ) → turn ≤ t → t < turn + left → gaps t ≡ [])
      → any_step_gap gaps turn left ≡ false
  unfolding any_step_gap
  all_given turn zero h = refl
  all_given turn (suc left) h =
      let e = empty_test (gaps turn) (h turn (omega arith) (omega arith)) in
      let rest = all_given (turn + 1) left (λ t a b. h t (omega arith) (omega arith)) in
      ground arith

module _ (reads : Reads) where
  abbrev floor : ℕ
  floor = first_owed_turn reads.get_run

  abbrev left : ℕ
  left = highest reads.list_save_points + 1 - floor

  is_complete : record_completeness_status reads ≡ complete → IsComplete reads
  unfolding record_completeness_status by_tests
  is_complete h =
      let (a, b, c) =
        by_tests-complete (is_empty reads.list_save_points) (any_from floor reads.turn_gaps)
          (any_step_gap reads.step_gaps floor left) h in
      record {
        attempted = λ e. let q = empty_test reads.list_save_points e in cc;
        turns = (none_from floor reads.turn_gaps).0 b;
        steps = λ t low high. no_gap reads.step_gaps floor left c t low (omega arith);
      }

  gives_complete : IsComplete reads → record_completeness_status reads ≡ complete
  unfolding record_completeness_status
  gives_complete k =
      let b = (none_from floor reads.turn_gaps).1 k.turns in
      let c = all_given reads.step_gaps floor left (λ t low high. k.steps t low (omega arith)) in
      elim (Bool-cases (is_empty reads.list_save_points)) [
        | inl e ↦ absurd (k.attempted (empty_list reads.list_save_points e))
        | inr e ↦ rw e (rw b (rw c refl))
      ]

  -- The record of a run is complete exactly if the run has a save point, no turn from the first
  -- that it owes on lacks an authoritative attempt, and no turn from there to the highest that it
  -- attempted lacks a step.
  pub record_completeness_status_iff :
      (record_completeness_status reads ≡ complete) ↔ IsComplete reads
  record_completeness_status_iff = (is_complete, gives_complete)
