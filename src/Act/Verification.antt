-- ===== src/Act/Verification.antt =====
-- What verification records of an executed action.
use civ_sim_taskify.Prelude.{
  String, ◌≡◌, refl, sym, ◌∙◌, subst, ◌↔◌, Bool, true, false, Option, none, some, arith,
}
use civ_sim_taskify.Errors.{Result, ok, err}
use civ_sim_taskify.Models.Run.{Timestamp}
use civ_sim_taskify.Models.Value.{Value}
use civ_sim_taskify.Models.Turn.{changed_state}
use civ_sim_taskify.Predicate.Syntax.{Python}
use civ_sim_taskify.Predicate.Eval.{evaluate_predicate}
use civ_sim_taskify.Predicate.Bindings.{Observation, build_predicate_bindings}
use civ_sim_taskify.Act.Registry.{ParityDeclaration}
use civ_sim_taskify.Act.Dispatch.{applied}
use civ_sim_taskify.Act.Verify.{
  ExecutionVerification, observed_snapshot, verify_execution, verdict, check_verified,
}

-- The action did what its declaration says, by the state that was read back.
abbrev pub IsConfirmed : Python → ParityDeclaration → Observation → Observation → Value → Type 0
IsConfirmed python d pre post target =
    (p : String) × (d.verification_predicate ≡ some p)
    × (evaluate_predicate python p (build_predicate_bindings post target (observed_snapshot pre))
        ≡ ok true)

-- The parts of a verdict all say the same.
abbrev Says : Type 0 → ExecutionVerification → Type 0
Says confirmed v =
    ((v.execution.outcome ≡ applied) ↔ confirmed)
    × ((v.progress ≡ changed_state) ↔ confirmed)
    × ((v.execution.rejection_reason ≡ none) ↔ confirmed)

verdict-Says :
    (at : Timestamp) (r : Result Bool) (v : ExecutionVerification)
    → verdict at r ≡ v
    → Says (r ≡ ok true) v
verdict-Says at (ok true) v h =
    ((λ q. refl, λ q. ground arith), (λ q. refl, λ q. ground arith), (λ q. refl, λ q. ground arith))
verdict-Says at (ok false) v h = (
  (λ q. absurd (ground arith), λ q. absurd (ground arith)),
  (λ q. absurd (ground arith), λ q. absurd (ground arith)),
  (λ q. absurd (ground arith), λ q. absurd (ground arith)),
)
verdict-Says at (err e) v h = (
  (λ q. absurd (ground arith), λ q. absurd (ground arith)),
  (λ q. absurd (ground arith), λ q. absurd (ground arith)),
  (λ q. absurd (ground arith), λ q. absurd (ground arith)),
)

module _ (python : Python) (d : ParityDeclaration) (pre post : Observation) (target : Value)
    (at : Timestamp) where
  checked-Says :
      (a : Option String) (v : ExecutionVerification)
      → d.verification_predicate ≡ a
      → check_verified python pre post target at a ≡ ok v
      → Says (IsConfirmed python d pre post target) v
  checked-Says none v p h = absurd (cc)
  checked-Says (some q) v p h =
      let (outcome, progress, reason) =
        verdict-Says at
          (evaluate_predicate python q
            (build_predicate_bindings post target (observed_snapshot pre)))
          v (some_ok h) in
      (through outcome, through progress, through reason)
    where
      some_ok : {x y : ExecutionVerification} → ok x ≡ ok y → x ≡ y
      some_ok e = cc

      same_text : {x y : String} → some x ≡ some y → x ≡ y
      same_text e = cc

      through :
          {P : Type 0}
          → P ↔ (
              evaluate_predicate python q
                (build_predicate_bindings post target (observed_snapshot pre))
              ≡ ok true)
          → P ↔ IsConfirmed python d pre post target
      through (f, g) = (
        λ x. (q, p, f x),
        λ c. g (
            let (r, e, t) = c in
            subst
              (λ (s : String).
                evaluate_predicate python s
                  (build_predicate_bindings post target (observed_snapshot pre))
                ≡ ok true)
              (same_text (sym e ∙ p)) t),
      )

  -- A verification records an action as applied, as having changed the state and with no reason of
  -- rejection, each exactly when the declaration's verification predicate evaluates to true on the
  -- observation read back and the snapshot of the one before: a predicate that is false or cannot
  -- be evaluated never counts as success.
  pub verify_execution_confirms :
      (v : ExecutionVerification)
      → verify_execution python d pre post target at ≡ ok v
      → ((v.execution.outcome ≡ applied) ↔ IsConfirmed python d pre post target)
        × ((v.progress ≡ changed_state) ↔ IsConfirmed python d pre post target)
        × ((v.execution.rejection_reason ≡ none) ↔ IsConfirmed python d pre post target)
  unfolding verify_execution
  verify_execution_confirms v h = checked-Says d.verification_predicate v refl h
